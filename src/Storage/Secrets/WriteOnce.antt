-- ===== src/Storage/Secrets/WriteOnce.antt =====
-- That a secret which is known stays as it is.
mod Tests
use klingdex.Prelude.{
  ℕ, String, Bool, true, false, ◌&&◌, not, ◌≡◌, ◌≢◌, refl, sym, ◌∙◌, ap, inl, inr, Option, none,
  some, List, [], ◌∷◌, ◌++◌, arith, if◌then◌else◌, str_eq, eq_iff, Result, ok, err, Bool-cases,
  Option-cases,
}
use klingdex.Tables.{
  update_where, find_where, any_where, find-update, find-update_self, find_where-true,
  any_where-find, find-snoc_some,
}
use klingdex.Storage.Secrets.{
  Secret, SecretError, has_id, has_hash, is_known, non_empty, conflicts, create_secret, get_secret,
  get_secret_by_hash, reveal_where, reveal_secret, reveal_secret_by_hash, has_secret_preimage,
}

-- The changes of the table but for the deletions.
pub data Change : Type 0 where
  create : Secret → Change
  reveal reveal_hash : ℕ → String → String → Change

kept_or : Result SecretError (List Secret) → List Secret → List Secret
kept_or (ok rows) old = rows
kept_or (err e) old = old

unfoldable pub change : Change → List Secret → List Secret
unfolding kept_or
change (create s) rows = kept_or (create_secret s rows) rows
change (reveal now i p) rows = kept_or (reveal_secret now i p rows) rows
change (reveal_hash now h p) rows = kept_or (reveal_secret_by_hash now h p rows) rows

unfoldable pub change_all : List Change → List Secret → List Secret
change_all [] rows = rows
change_all (c ∷ cs) rows = change_all cs (change c rows)

reveal_where-kept :
    (found : Secret → Bool) (now : ℕ) (p i : String) (rows : List Secret) {s : Secret}
    → get_secret i rows ≡ some s
    → is_known s.secret ≡ true
    → get_secret i (kept_or (reveal_where found now p rows) rows) ≡ some s
unfolding get_secret reveal_where kept_or
reveal_where-kept found now p i rows {s} h k = elim (Bool-cases (any_where found rows)) [
  | inr miss ↦ rw miss h
  | inl hit ↦ rw hit (
      find-update (has_id i) (λ r. found r && not (is_known r.secret))
        (λ r. record r { secret = some p; revealed_at = some now }) rows (λ r. refl)
      ∙ rw (h, k) (ground arith))
]

create-kept :
    (x : Secret) (i : String) (rows : List Secret) {s : Secret}
    → get_secret i rows ≡ some s
    → get_secret i (kept_or (create_secret x rows) rows) ≡ some s
unfolding get_secret create_secret kept_or
create-kept x i rows h = elim (Bool-cases (any_where (conflicts x) rows)) [
  | inl clash ↦ rw clash h
  | inr free ↦ rw free (find-snoc_some (has_id i) rows _ h)
]

change-kept :
    (c : Change) (i : String) (rows : List Secret) {s : Secret}
    → get_secret i rows ≡ some s
    → is_known s.secret ≡ true
    → get_secret i (change c rows) ≡ some s
unfolding change reveal_secret reveal_secret_by_hash
change-kept (reveal now j p) i rows h k = reveal_where-kept (has_id j) now p i rows h k
change-kept (reveal_hash now j p) i rows h k = reveal_where-kept (has_hash j) now p i rows h k
change-kept (create x) i rows h k = create-kept x i rows h

-- A secret that is known stays, with its preimage and the time of its reveal, whatever is revealed
-- and created afterwards.
pub change_all-kept :
    (cs : List Change) (i : String) (rows : List Secret) {s : Secret}
    → get_secret i rows ≡ some s
    → is_known s.secret ≡ true
    → get_secret i (change_all cs rows) ≡ some s
unfolding change_all
change_all-kept [] i rows h k = h
change_all-kept (c ∷ cs) i rows h k =
    change_all-kept cs i (change c rows) (change-kept c i rows h k) k

-- The preimage of a hash whose secret is missing can be revealed by the hash, and is then known.
pub reveal_secret_by_hash-Known :
    (now : ℕ) (h p : String) (rows : List Secret) {s : Secret}
    → get_secret_by_hash h rows ≡ some s
    → s.secret ≡ none
    → str_eq p "" ≡ false
    → (rows' : List Secret) × (reveal_secret_by_hash now h p rows ≡ ok rows')
      × (has_secret_preimage h rows' ≡ true)
      × (get_secret_by_hash h rows' ≡ some (record s { secret = some p; revealed_at = some now }))
unfolding get_secret_by_hash reveal_secret_by_hash reveal_where has_secret_preimage
reveal_secret_by_hash-Known now h p rows {s} found missing real =
    let f : Secret → Secret = λ r. record r { secret = some p; revealed_at = some now } in
    let e =
      find-update (has_hash h) (λ r. has_hash h r && not (is_known r.secret)) f rows (λ r. refl)
      ∙ rw (found, find_where-true (has_hash h) rows found, missing) refl in
    (
      update_where (λ r. has_hash h r && not (is_known r.secret)) f rows,
      rw (any_where-find (has_hash h) rows found) refl,
      rw (e, real) refl,
      e,
    )
