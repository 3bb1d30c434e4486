-- ===== src/Document/Mutation.antt =====
-- IsDuplicateMutation and ValidateMutation of src/core/kv_store.cpp.
use range_vec_kv.Base.{
  ◌≡◌, ◌≤◌, ◌⊎◌, Bool, true, false, not, ◌&&◌, List, [], ◌∷◌, ltb, ◌==◌, if◌then◌else◌, arith,
}
use range_vec_kv.Base.Bytes.{bytes, bytes_eq}
use range_vec_kv.Status.{Status, ok_status, invalid_argument, is_ok}
use range_vec_kv.Document.{DocumentRecord}

-- s.empty()
abbrev pub is_empty {ℓ} : {A : Type ℓ} → List A → Bool
is_empty [] = true
is_empty (x ∷ xs) = false

unfoldable pub is_duplicate_mutation : DocumentRecord → DocumentRecord → Bool
is_duplicate_mutation existing incoming =
    not (is_empty incoming.mutation_id) && bytes_eq existing.mutation_id incoming.mutation_id

unfoldable pub validate_mutation : DocumentRecord → DocumentRecord → Status
unfolding is_duplicate_mutation
validate_mutation existing incoming =
    if is_duplicate_mutation existing incoming
    then ok_status
    else if not (incoming.version == 0)
        && not (existing.version == 0)
        && ltb incoming.version existing.version
    then invalid_argument
        (bytes "stale document mutation: incoming version is older than stored version")
    else ok_status

-- A mutation that is not a repetition passes exactly when one version is unset or it is not older.
pub validate_mutation-is_ok :
    (existing incoming : DocumentRecord)
    → is_duplicate_mutation existing incoming ≡ false
    → is_ok (validate_mutation existing incoming) ≡ true
    → (incoming.version ≡ 0) ⊎ (existing.version ≡ 0) ⊎ (existing.version ≤ incoming.version)
unfolding validate_mutation
validate_mutation-is_ok existing incoming d h = ground arith
