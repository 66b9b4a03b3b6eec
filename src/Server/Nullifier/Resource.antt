-- ===== src/Server/Nullifier/Resource.antt =====
-- The canonical form of a resource: `canonical_resource_id` of server/src/nullifier.rs.
use sec_s_magik.Base.{
  Bool, ◌||◌, List, [], ◌∷◌, ◌++◌, Text, bytes, Result, ok, ◌>>=◌, ◌>>◌, deny, ok_or, ◌==◌,
  is_prefix, if◌then◌else◌, list_eq, nat_eq,
}
use sec_s_magik.Server.Text.{strip_prefix, split, join}

pub data NullifierReason : Type 0 where
  duplicate_nullifier domain_mismatch missing_scoped_nullifier unsupported_scope : NullifierReason

-- `parts.pop()`, with the last part first.
abbrev pub pop : List Text → List Text
pop [] = []
pop (part ∷ parts) = parts

-- One round of the loop over the parts, which stand last first.
unfoldable pub resolve_part : List Text → Text → List Text
resolve_part parts part =
    if part == [] || part == bytes "."
    then parts
    else if part == bytes ".."
    then pop parts
    else part ∷ parts

unfoldable pub resolve : List Text → List Text → List Text
unfolding resolve_part
resolve parts [] = parts
resolve parts (part ∷ rest) = resolve (resolve_part parts part) rest

abbrev pub reverse_onto : List Text → List Text → List Text
reverse_onto [] done = done
reverse_onto (part ∷ parts) done = reverse_onto parts (part ∷ done)

-- The path without its scheme, from the parts between its slashes.
unfoldable pub canonical_path : Text → Text
unfolding resolve
canonical_path rest =
    let path = join 47 (reverse_onto (resolve [] (split 47 rest)) []) in
    if is_prefix (bytes "/") rest then bytes "/" ++ path else path

unfoldable pub canonical_resource_id : (Text → Bool) → Text → Result NullifierReason Text
unfolding canonical_path
canonical_resource_id is_blank resource =
    ok_or (strip_prefix (bytes "file://") resource) domain_mismatch >>= λ rest.
    deny (is_blank rest) missing_scoped_nullifier >> ok (bytes "file://" ++ canonical_path rest)
