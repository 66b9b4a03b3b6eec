-- ===== src/Contract/Version1/Narrowing.antt =====
-- What `permissions_within` of lib.rs establishes: every permission of a credential is contained in
-- one permission of its grant.
use sec_s_magik.Base.{
  true, List, ok, Eq, list_eq, nat_eq, beq→eq, contains, all, any, any_witness, all-contains,
  any-contains, all_intro, ◌≡◌, arith,
}
use sec_s_magik.Contract.Codec.{JsonLibrary}
use sec_s_magik.Contract.Scope.{Node, scope_eq}
use sec_s_magik.Contract.Scope.Containment.{covers, scope_within_trans, covers_of_within}
use sec_s_magik.Contract.Version1.{Permission, permission_eq, permission_within, permissions_within}

module _ {Value : Type 0} ⦃e : Eq Value⦄ (json : JsonLibrary Value)
    (permissions_value : List (Permission Value) → Value) where
  -- One permission is contained in another.
  pub record IsContained (c p : Permission Value) : Type 0 where
    pub operation : c.operation ≡ p.operation
    pub resource : c.resource ≡ p.resource
    pub constraints : c.constraints ≡ p.constraints
    pub scope : (path : List Node) → covers c.scope path ≡ true → covers p.scope path ≡ true

  permission_within→IsContained :
      (c p : Permission Value) → permission_within c p ≡ true → IsContained c p
  unfolding permission_within
  permission_within→IsContained c p h = record {
    operation = beq→eq c.operation p.operation (ground arith);
    resource = beq→eq c.resource p.resource (ground arith);
    constraints = beq→eq c.constraints p.constraints (ground arith);
    scope = covers_of_within c.scope p.scope (ground arith);
  }

  permission_within_trans :
      (a b c : Permission Value)
      → permission_within a b ≡ true
      → permission_within b c ≡ true
      → permission_within a c ≡ true
  unfolding permission_within
  permission_within_trans a b c h k = ground (
    arith,
    beq→eq a.operation b.operation (ground arith),
    beq→eq a.resource b.resource (ground arith),
    beq→eq a.constraints b.constraints (ground arith),
    scope_within_trans a.scope b.scope c.scope,
  )

  all_within :
      (child parent : List (Permission Value))
      → permissions_within json permissions_value child parent ≡ ok tt
      → all (λ c. any (permission_within c) parent) child ≡ true
  unfolding permissions_within
  all_within child parent h = ground arith

  -- When the check of version 1 permissions passes, each child permission has a parent permission of
  -- the same operation, resource and constraints, whose scope covers every path that the child's does.
  pub permissions_within-IsContained :
      (child parent : List (Permission Value)) (c : Permission Value)
      → permissions_within json permissions_value child parent ≡ ok tt
      → contains child c ≡ true
      → (p : Permission Value) × (contains parent p ≡ true) × IsContained c p
  permissions_within-IsContained child parent c h m =
      let (p, held, inside) = any_witness (permission_within c) parent (
        all-contains (λ x. any (permission_within x) parent) child c (all_within child parent h)
          m) in
      (p, held, permission_within→IsContained c p inside)

  -- Where the check of version 1 permissions passes for a first and a second list, and for the
  -- second and a third, it passes for the first and the third.
  pub permissions_within_trans :
      (a b c : List (Permission Value))
      → permissions_within json permissions_value a b ≡ ok tt
      → permissions_within json permissions_value b c ≡ ok tt
      → permissions_within json permissions_value a c ≡ ok tt
  unfolding permissions_within
  permissions_within_trans a b c h k =
      let through : all (λ x. any (permission_within x) c) a ≡ true =
        all_intro (λ x. any (permission_within x) c) a
          λ x m.
            let (y, held, inside) =
              any_witness (permission_within x) b
                (all-contains (λ z. any (permission_within z) b) a x (all_within a b h) m) in
            let (z, held', inside') =
              any_witness (permission_within y) c
                (all-contains (λ z. any (permission_within z) c) b y (all_within b c k) held) in
            any-contains (permission_within x) c z held'
              (permission_within_trans x y z inside inside') in
      ground (arith, h, k, through)
