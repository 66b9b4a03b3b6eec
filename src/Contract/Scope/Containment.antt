-- ===== src/Contract/Scope/Containment.antt =====
-- `Scope::within` decides containment of the resources that two scopes cover: lib.rs.
use sec_s_magik.Base.{
  ◌≡◌, ◌↔◌, refl, Bool, true, false, List, [], ◌∷◌, ok, each_after, any, is_prefix, is_prefix_refl,
  is_prefix_trans, any_witness, any-contains, all-contains, all_intro, list_eq, >>=-eq-ok, arith,
}
use sec_s_magik.Contract.Scope.{
  Node, node_eq, Scope, all_of, paths, check_root, validate_scope, scope_within,
}

-- A scope covers the paths that one of its roots begins.
abbrev pub covers : Scope → List Node → Bool
covers all_of path = true
covers (paths roots) path = any (λ r. is_prefix r path) roots

-- A valid scope of roots does not cover the empty path.
roots_nonempty :
    (seen roots : List (List Node))
    → each_after check_root seen roots ≡ ok tt
    → any (λ r. is_prefix r []) roots ≡ false
roots_nonempty seen [] h = refl
roots_nonempty seen ([] ∷ roots) h = cc
roots_nonempty seen ((n ∷ p) ∷ roots) h =
    let (u, here, later) =
      >>=-eq-ok (check_root seen (n ∷ p)) (λ _. each_after check_root ((n ∷ p) ∷ seen) roots) h in
    roots_nonempty ((n ∷ p) ∷ seen) roots later

pub covers_of_within :
    (a b : Scope)
    → scope_within a b ≡ true
    → (path : List Node) → covers a path ≡ true
    → covers b path ≡ true
unfolding scope_within
covers_of_within all_of all_of h path c = refl
covers_of_within (paths a) all_of h path c = refl
covers_of_within all_of (paths b) h path c = cc
covers_of_within (paths a) (paths b) h path c =
    let (root, held, begins) = any_witness (λ r. is_prefix r path) a c in
    let (r, held_r, begins_r) =
      any_witness (λ r. is_prefix r root) b
        (all-contains (λ p. any (λ r. is_prefix r p) b) a root h held) in
    any-contains (λ r. is_prefix r path) b r held_r (is_prefix_trans r root path begins_r begins)

within_of_covers :
    (a b : Scope)
    → validate_scope b ≡ ok tt
    → ((path : List Node) → covers a path ≡ true → covers b path ≡ true)
    → scope_within a b ≡ true
unfolding scope_within validate_scope
within_of_covers all_of all_of v h = refl
within_of_covers (paths a) all_of v h = refl
within_of_covers all_of (paths b) v h =
    ground (arith, h [] refl, roots_nonempty [] b (ground arith))
within_of_covers (paths a) (paths b) v h =
    all_intro (λ p. any (λ r. is_prefix r p) b) a
      λ p held. h p (any-contains (λ r. is_prefix r p) a p held (is_prefix_refl p))

-- For a valid parent scope, `within` answers true exactly when the parent covers every path that the
-- child covers.
pub scope_within_iff :
    (child parent : Scope)
    → validate_scope parent ≡ ok tt
    → (scope_within child parent ≡ true)
      ↔ ((path : List Node) → covers child path ≡ true → covers parent path ≡ true)
scope_within_iff child parent v = (covers_of_within child parent, within_of_covers child parent v)

pub scope_within_refl : (s : Scope) → scope_within s s ≡ true
unfolding scope_within
scope_within_refl all_of = refl
scope_within_refl (paths a) =
    all_intro (λ p. any (λ r. is_prefix r p) a) a
      λ p held. any-contains (λ r. is_prefix r p) a p held (is_prefix_refl p)

pub scope_within_trans :
    (a b c : Scope) → scope_within a b ≡ true → scope_within b c ≡ true → scope_within a c ≡ true
unfolding scope_within
scope_within_trans all_of all_of c h k = k
scope_within_trans all_of (paths b) c h k = cc
scope_within_trans (paths a) b all_of h k = refl
scope_within_trans (paths a) all_of (paths c) h k = cc
scope_within_trans (paths a) (paths b) (paths c) h k =
    all_intro (λ p. any (λ r. is_prefix r p) c) a
      λ p held.
        covers_of_within (paths b) (paths c) k p
          (all-contains (λ p. any (λ r. is_prefix r p) b) a p h held)
