-- ===== src/Poller/Requests.antt =====
-- frontend/src/state/dataset-poller.ts: lists of requests in flight, and how one fits its poller.
use federated_iot_platform.Prelude.{
  ℕ, zero, suc, ◌+◌, ◌≤◌, ◌≡◌, refl, some, List, [], ◌∷◌, arith, ◌==◌, if◌then◌else◌, get_elem?,
  All,
}
use federated_iot_platform.Poller.{Request, Poller, remove_at}

-- How many requests the poll of a generation has in flight.
unfoldable pub current : ℕ → List Request → ℕ
current g [] = 0
current g (r ∷ rs) = (if r.generation == g then 1 else 0) + current g rs

-- A request is no newer than the object, and one of its generation is the one that it waits for.
pub record Fits (p : Poller) (r : Request) : Type 0 where
  pub past : r.generation ≤ p.generation
  pub watched : r.generation ≡ p.generation → p.dataset_id ≡ some r.dataset_id
  pub held : r.generation ≡ p.generation → p.controller ≡ some r.controller

module _ {ℓ κ} {A : Type ℓ} (P : A → Type κ) where
  pub All-get_elem? : (xs : List A) (i : ℕ) (x : A) → get_elem? xs i ≡ some x → All P xs → P x
  All-get_elem? [] i x e h = cc
  All-get_elem? (y ∷ ys) zero x e h = ground arith
  All-get_elem? (y ∷ ys) (suc i) x e h = All-get_elem? ys i x e h.1

  pub All-remove_at : (xs : List A) (i : ℕ) → All P xs → All P (remove_at i xs)
  unfolding remove_at
  All-remove_at [] i h = tt
  All-remove_at (x ∷ xs) zero h = h.1
  All-remove_at (x ∷ xs) (suc i) h = (h.0, All-remove_at xs i h.1)

pub current-remove_at :
    (g i : ℕ) (rs : List Request) (r : Request)
    → get_elem? rs i ≡ some r
    → current g rs ≡ (if r.generation == g then 1 else 0) + current g (remove_at i rs)
unfolding current remove_at
current-remove_at g i [] r e = cc
current-remove_at g zero (s ∷ rs) r e = ground arith
current-remove_at g (suc i) (s ∷ rs) r e = omega (arith, current-remove_at g i rs r e)

-- A new generation has no request in flight yet, and what was in flight stays out of its way.
pub current_next :
    (p : Poller) (rs : List Request) → All (Fits p) rs → current (suc p.generation) rs ≡ 0
unfolding current
current_next p [] h = refl
current_next p (r ∷ rs) (f, h) = ground (arith, f.past, current_next p rs h)

pub All-Fits_next :
    (p q : Poller) (rs : List Request)
    → q.generation ≡ suc p.generation
    → All (Fits p) rs
    → All (Fits q) rs
All-Fits_next p q [] e h = tt
All-Fits_next p q (r ∷ rs) e (f, h) = (
  record {
    past = omega (arith, f.past);
    watched = λ same. absurd (omega (arith, f.past));
    held = λ same. absurd (omega (arith, f.past));
  },
  All-Fits_next p q rs e h,
)

-- With no request of the generation in flight, the rest of the object may change.
pub All-Fits_free :
    (p q : Poller) (rs : List Request)
    → q.generation ≡ p.generation
    → current p.generation rs ≡ 0
    → All (Fits p) rs
    → All (Fits q) rs
unfolding current
All-Fits_free p q [] e c h = tt
All-Fits_free p q (r ∷ rs) e c (f, h) = (
  record {
    past = omega (arith, f.past);
    watched = λ same. absurd (ground arith);
    held = λ same. absurd (ground arith);
  },
  All-Fits_free p q rs e (omega arith) h,
)
