-- ===== src/Translations/KeyCheck/Reported.antt =====
-- frontend/scripts/check-i18n.mjs: which missing keys are reported.
use federated_iot_platform.Prelude.{
  ℕ, zero, suc, ◌≤◌, Bool, true, false, not, ◌||◌, List, [], ◌∷◌, ◌++◌, String, if◌then◌else◌,
  length, drop, filter, ◌≡◌, refl, arith, eq_iff, ap,
}
use federated_iot_platform.Js.{includes}
use federated_iot_platform.Translations.KeyCheck.{
  KeyTable, key_matches, separators_from, Found, found, missing_table, all_additional, distinct,
  missing_in, english_tables, chinese_tables, mismatch, verified, compare_keys, between,
  with_tables, on_separators, check_keys, reported_missing,
}

includes-append :
    (j : String) (a b : List String) → includes (a ++ b) j ≡ (includes a j || includes b j)
unfolding includes
includes-append j [] b = refl
includes-append j (s ∷ a) b = ground (arith, includes-append j a b)

includes-drop :
    (k : String) (i : ℕ) (a b : List String)
    → i ≤ length a
    → includes b k ≡ true
    → includes (drop i (a ++ b)) k ≡ true
unfolding includes
includes-drop k zero a b h e = ground (arith, includes-append k a b)
includes-drop k (suc i) [] b h e = absurd (omega arith)
includes-drop k (suc i) (s ∷ a) b h e = includes-drop k i a b (omega arith) e

includes-filter :
    (p : String → Bool) (k : String) (ks : List String)
    → p k ≡ false
    → includes (filter p ks) k ≡ false
unfolding includes
includes-filter p k [] h = refl
includes-filter p k (s ∷ ks) h = ground (arith, includes-filter p k ks h, eq_iff s k)

append_assoc : (a b c : List String) → a ++ (b ++ c) ≡ (a ++ b) ++ c
append_assoc [] b c = refl
append_assoc (s ∷ a) b c = ap (λ t. s ∷ t) (append_assoc a b c)

key_matches-append :
    (ts us : List KeyTable) → key_matches (ts ++ us) ≡ key_matches ts ++ key_matches us
unfolding key_matches
key_matches-append [] us = refl
key_matches-append (t ∷ ts) us = rw (key_matches-append ts us) (append_assoc t.keys _ _)

missing_in-includes :
    (k : String) (those these : List String)
    → includes those k ≡ true
    → includes (missing_in those these) k ≡ false
unfolding missing_in
missing_in-includes k those these h =
    includes-filter (λ j. not (includes those j)) k (distinct these) (rw h refl)

mismatch-reported :
    (k : String) (b : Bool) (n : ℕ) (zh en : List String)
    → includes zh k ≡ false
    → includes (reported_missing (if b then verified n else mismatch zh en)) k ≡ false
unfolding reported_missing includes
mismatch-reported k true n zh en h = refl
mismatch-reported k false n zh en h = h

compare_keys-reported :
    (k : String) (english chinese : List String)
    → includes chinese k ≡ true
    → includes (reported_missing (compare_keys english chinese)) k ≡ false
unfolding compare_keys
compare_keys-reported k english chinese h =
    mismatch-reported k _ (length (distinct english)) (missing_in chinese english)
      (missing_in english chinese) (missing_in-includes k chinese english h)

with_tables-reported :
    (k : String) (english chinese : List String) (e c : Found)
    → includes chinese k ≡ true
    → includes (reported_missing (with_tables english chinese e c)) k ≡ false
unfolding with_tables reported_missing
with_tables-reported k english chinese (missing_table n) c h = unfold includes in refl
with_tables-reported k english chinese (found en) (missing_table n) h = unfold includes in refl
with_tables-reported k english chinese (found en) (found zh) h =
    compare_keys-reported k (english ++ en) (chinese ++ zh)
      (ground (arith, includes-append k chinese zh))

-- A key of a table that stands after the second "nav.workspace", an English table of the later ones
-- included, is never reported as missing in Chinese.
pub check_keys-after :
    (before after : List KeyTable) (t : KeyTable) (k : String) (i j : ℕ)
    → separators_from 0 (key_matches (before ++ (t ∷ after))) ≡ i ∷ j ∷ []
    → j ≤ length (key_matches before)
    → includes t.keys k ≡ true
    → includes (reported_missing (check_keys (before ++ (t ∷ after)))) k ≡ false
unfolding check_keys on_separators
check_keys-after before after t k i j h le e =
    let ts = before ++ (t ∷ after) in
    let stands : includes (key_matches (t ∷ after)) k ≡ true =
      unfold key_matches in ground (arith, includes-append k t.keys (key_matches after)) in
    let kept : includes (drop j (key_matches ts)) k ≡ true =
      rw (key_matches-append before (t ∷ after))
        (includes-drop k j (key_matches before) (key_matches (t ∷ after)) le stands) in
    rw h (
      with_tables-reported k (between i j (key_matches ts)) (drop j (key_matches ts))
        (all_additional english_tables ts) (all_additional chinese_tables ts) kept)
