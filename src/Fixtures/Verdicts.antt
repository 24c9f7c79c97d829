-- ===== src/Fixtures/Verdicts.antt =====
-- backend/scripts/verify_worker_fixture.mjs and backend/scripts/verify_contracts.mjs: what the checks
-- let through.
use federated_iot_platform.Prelude.{String, ◌≡◌, refl}
use federated_iot_platform.Js.{Value}
use federated_iot_platform.Fixtures.Canonical.{Same, canonicalize-Same_in}
use federated_iot_platform.Fixtures.Checks.{canonical_sha256, worker_fixture_error}

-- The check of the worker fixture gives one result for field material that is the same up to the
-- order of its keys.
pub worker_fixture_error-Same :
    (digest : Value → String) (m n envelope : Value) (manifest : String) (descriptor : Value)
    → Same m n
    → worker_fixture_error digest m envelope manifest descriptor
      ≡ worker_fixture_error digest n envelope manifest descriptor
unfolding worker_fixture_error canonical_sha256
worker_fixture_error-Same digest m n envelope manifest descriptor h =
    rw (canonicalize-Same_in h) refl
