-- ===== src/Fixtures/Tests.antt =====
-- backend/scripts/verify_worker_fixture.mjs: a document of two fields in both orders.
use federated_iot_platform.Prelude.{◌≡◌, ◌↔◌, refl}
use federated_iot_platform.Js.{Value, nat, obj, arr, cons, nil, end, field, lookup}
use federated_iot_platform.Fixtures.{
  canonicalize, canonicalize_items, canonicalize_fields, insert_by_key, precedes,
}
use federated_iot_platform.Fixtures.Canonical.{Same, IsDocument, canonicalize-eq_iff}

abbrev forwards : Value
forwards =
    obj (field "agent" (nat 1) (field "items" (arr (cons (obj (field "k" (nat 2) end)) nil)) end))

abbrev backwards : Value
backwards =
    obj (field "items" (arr (cons (obj (field "k" (nat 2) end)) nil)) (field "agent" (nat 1) end))

forwards-IsDocument : IsDocument forwards
unfolding IsDocument lookup
forwards-IsDocument = (refl, tt, (refl, ((refl, tt, tt), tt), tt))

backwards-IsDocument : IsDocument backwards
unfolding IsDocument lookup
backwards-IsDocument = (refl, ((refl, tt, tt), tt), (refl, tt, tt))

canonicalize-eq_iff_example :
    (canonicalize forwards ≡ canonicalize backwards) ↔ Same forwards backwards
canonicalize-eq_iff_example =
    canonicalize-eq_iff forwards backwards forwards-IsDocument backwards-IsDocument

one_form : canonicalize forwards ≡ canonicalize backwards
unfolding canonicalize canonicalize_items canonicalize_fields insert_by_key precedes
one_form = refl
