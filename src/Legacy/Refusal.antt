-- ===== src/Legacy/Refusal.antt =====
-- DeserializeRecord never answers with a status that is ok.
use range_vec_kv.Base.{◌≡◌, refl, false, ℕ, List, [], ◌∷◌}
use range_vec_kv.Base.Int.{ℤ}
use range_vec_kv.Base.Bytes.{Bytes}
use range_vec_kv.Status.{StatusOr, value, status, is_ok, Try, returned, raised}
use range_vec_kv.Document.{DocumentRecord}
use range_vec_kv.Legacy.{deserialize_record, record_of_parts, split_escaped, stoull, stoll}

-- A status in the place of a document is not ok.
abbrev pub Refuses : Try (StatusOr DocumentRecord) → Type 0
Refuses raised = Unit
Refuses (returned (value r)) = Unit
Refuses (returned (status st)) = is_ok st ≡ false

with_numbers-Refuses :
    (f : ℕ → ℤ → DocumentRecord) (x : Try ℕ) (y : Try ℤ)
    → Refuses (elim x [
      | raised ↦ raised
      | returned n ↦ elim y [ raised ↦ raised | returned z ↦ returned (value (f n z)) ]
    ])
with_numbers-Refuses f raised y = tt
with_numbers-Refuses f (returned n) raised = tt
with_numbers-Refuses f (returned n) (returned z) = tt

record_of_parts-Refuses : (parts : List Bytes) → Refuses (record_of_parts parts)
unfolding record_of_parts
record_of_parts-Refuses [] = refl
record_of_parts-Refuses (a ∷ []) = refl
record_of_parts-Refuses (a ∷ b ∷ []) = refl
record_of_parts-Refuses (a ∷ b ∷ c ∷ []) = refl
record_of_parts-Refuses (a ∷ b ∷ c ∷ d ∷ []) = refl
record_of_parts-Refuses (a ∷ b ∷ c ∷ d ∷ e ∷ []) = tt
record_of_parts-Refuses (a ∷ b ∷ c ∷ d ∷ e ∷ f ∷ []) = refl
record_of_parts-Refuses (a ∷ b ∷ c ∷ d ∷ e ∷ f ∷ g ∷ []) = refl
record_of_parts-Refuses (a ∷ b ∷ c ∷ d ∷ e ∷ f ∷ g ∷ h ∷ []) =
    with_numbers-Refuses _ (stoull f) (stoll g)
record_of_parts-Refuses (a ∷ b ∷ c ∷ d ∷ e ∷ f ∷ g ∷ h ∷ i ∷ rest) = refl

pub deserialize_record-Refuses : (line : Bytes) → Refuses (deserialize_record line)
unfolding deserialize_record
deserialize_record-Refuses line = record_of_parts-Refuses (split_escaped line b'|')
