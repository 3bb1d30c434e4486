-- ===== src/Serving/Paging.antt =====
-- ReindexDocuments of src/gateway/server.cpp reads a collection page by page. All pages together are
-- one pass over the collection.
use range_vec_kv.Base.{
  ℕ, zero, suc, ◌<◌, max, ltb, ◌≡◌, refl, ap, ◌∙◌, sym, subst, Bool, true, false, Option, some,
  List, [], ◌∷◌, ◌++◌, length, length-drop, take, drop, take-drop, if◌then◌else◌, if_true, arith,
  Bool-cases, inl, inr,
}
use range_vec_kv.Base.Bytes.{Bytes}
use range_vec_kv.Status.{Status, value, ok_status, is_ok}
use range_vec_kv.Document.{DocumentRecord}
use range_vec_kv.Document.Keys.{IsPlain}
use range_vec_kv.Scan.Select.{select, last_key}
use range_vec_kv.Outbox.{index_record}
use range_vec_kv.Gateway.{
  Backend, Gateway, index_all, reindex_loop, reindex_documents, flush_after, or_default,
  last_key_of, next_key,
}
use range_vec_kv.Serving.Laws.{StoreLaws}
use range_vec_kv.Serving.Ascending.{
  from, IsAscending, select-from, select-IsAscending, from-last_key_of,
}
use mathlib.Core.List.{append_assoc}

-- A page that is not full is the last.
drop-short {ℓ} :
    {A : Type ℓ} (n : ℕ) (xs : List A) → ltb (length (take n xs)) n ≡ true → drop n xs ≡ []
drop-short zero xs h = ground arith
drop-short (suc n) [] h = refl
drop-short (suc n) (x ∷ xs) h = drop-short n xs (ground arith)

room : (n : ℕ) → max 1 (suc n) ≡ suc n
room n = omega arith

-- A round of the outer loop, once the page is indexed with the result `p`: `later` indexes the rest,
-- which is empty if the page is short.
after_page {ℓ} :
    {World : Type ℓ} (p later : Status × World) (more : Option (Status × World)) (short : Bool)
    → (short ≡ true → later ≡ (ok_status, p.1))
    → more ≡ some later
    → (if is_ok p.0 then (if short then some (ok_status, p.1) else more) else some (p.0, p.1))
      ≡ some (if is_ok p.0 then later else p)
after_page (st, w) later more short q m = elim (Bool-cases (is_ok st)) [
  | inl e ↦ rw e (choose short q)
  | inr e ↦ rw e refl
]
  where
    choose :
        (b : Bool)
        → (b ≡ true → later ≡ (ok_status, w))
        → (if b then some (ok_status, w) else more) ≡ some later
    choose true h = ap some (sym (h refl))
    choose false h = m

module _ {Store World Vector : Type 0} (be : Backend Store World Vector) where
  index_all-append :
      (xs ys : List DocumentRecord) (w : World)
      → index_all be (xs ++ ys) w ≡ (
          if is_ok (index_all be xs w).0
          then index_all be ys (index_all be xs w).1
          else index_all be xs w)
  unfolding index_all
  index_all-append [] ys w = refl
  index_all-append (x ∷ xs) ys w = elim (Bool-cases (is_ok (index_record be.services x w).0)) [
    | inl e ↦ rw e (index_all-append xs ys (index_record be.services x w).1)
    | inr e ↦ rw (e, e) refl
  ]

  index_all_nil : (w : World) → index_all be [] w ≡ (ok_status, w)
  unfolding index_all
  index_all_nil w = refl

  module _ (laws : StoreLaws be.kv_store) (s : Store) (good : laws.IsGood s) (c : Bytes)
      (plain : IsPlain c) (n : ℕ) where
    abbrev all : List DocumentRecord
    all = select c [] (last_key []) (laws.documents s)

    -- The page at a key above which the documents `todo` are left.
    page_at :
        (b : Bytes) (todo : List DocumentRecord)
        → from b all ≡ todo
        → be.kv_store.range c b [] (suc n) s ≡ value (take (suc n) todo)
    page_at b todo f =
        laws.range_lem s c b [] (suc n) good plain
        ∙ ap (λ (k : ℕ). value (take k (select c b (last_key []) (laws.documents s)))) (room n)
        ∙ ap (λ l. value (take (suc n) l)) (select-from c b (last_key []) (laws.documents s) ∙ f)

    all-IsAscending : IsAscending all
    all-IsAscending =
        select-IsAscending c (last_key []) (laws.documents s) (laws.placed s good)
          (laws.sorted s good)

    -- The loop at the documents `todo` that are left, after those that are `done`.
    reindex_loop_lem :
        (fuel : ℕ) (b : Bytes) (done todo : List DocumentRecord) (w : World)
        → all ≡ done ++ todo
        → from b all ≡ todo
        → length todo < fuel
        → reindex_loop be fuel (suc n) s c b w ≡ some (index_all be todo w)
    unfolding reindex_loop
    reindex_loop_lem zero b done todo w e f l = absurd (omega arith)
    reindex_loop_lem (suc fuel) b done [] w e f l =
        rw (page_at b [] f, reindex_loop) (ap some (sym (index_all_nil w)))
    reindex_loop_lem (suc fuel) b done (r ∷ todo) w e f l =
        rw (page_at b (r ∷ todo) f, reindex_loop)
          (after_page (index_all be page w) (index_all be (drop n todo) (index_all be page w).1) _
              (ltb (length page) (suc n))
              (λ short.
                rw (drop-short (suc n) (r ∷ todo) short) (index_all_nil (index_all be page w).1))
              (reindex_loop_lem fuel next (done ++ page) (drop n todo) (index_all be page w).1 parts
                at_next (omega (arith, length-drop n todo)))
            ∙ ap some (
                sym (index_all-append page (drop n todo) w)
                ∙ ap (λ x. index_all be (r ∷ x) w) (take-drop n todo)))
      where
        page : List DocumentRecord
        page = r ∷ take n todo

        next : Bytes
        next = next_key (last_key_of page)

        parts_here : all ≡ done ++ (page ++ drop n todo)
        parts_here = e ∙ ap (λ x. done ++ r ∷ x) (sym (take-drop n todo))

        parts : all ≡ (done ++ page) ++ drop n todo
        parts = parts_here ∙ sym (append_assoc done page (drop n todo))

        at_next : from next all ≡ drop n todo
        at_next =
            ap (from next) parts_here
            ∙ from-last_key_of done r (take n todo) (drop n todo)
                (subst IsAscending parts_here all-IsAscending)

  -- ReindexDocuments on a started gateway indexes the documents of the collection whose key is not
  -- above the text "\x7f", and no others, in one pass, in key order, each once, and stops at the
  -- first failure; if there is none, it writes the snapshot of the index. It returns if the loop over
  -- the pages is given more rounds than there are such documents. The store is one that keeps the
  -- promises of `StoreLaws`, of which the open end of a scan at "\x7f" is one.
  pub reindex_documents-index_all :
      (laws : StoreLaws be.kv_store) (fuel : ℕ) (collection : Bytes) (g : Gateway Store World)
      → let documents =
          select (or_default g.config collection) [] (last_key []) (laws.documents g.kv) in
        laws.IsGood g.kv
        → IsPlain (or_default g.config collection)
        → g.started ≡ true
        → length documents < fuel
        → reindex_documents be fuel collection g
          ≡ some (flush_after be g (index_all be documents g.world))
  unfolding reindex_documents
  reindex_documents-index_all laws fuel collection g good plain on l =
      if_true g.started _ _ on
      ∙ rw
          (reindex_loop_lem laws g.kv good (or_default g.config collection) plain 999 fuel [] []
            (select (or_default g.config collection) [] (last_key []) (laws.documents g.kv)) g.world
            refl
            (sym
              (select-from (or_default g.config collection) [] (last_key []) (laws.documents g.kv)))
            l)
          refl
