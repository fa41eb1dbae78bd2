-- ===== src/State/Batches/Items/Agreement.antt =====
-- engine/state.py: the rows that `list_batch_items` shows against the sums of `_batch_summary_counts`.
use groupware_migrator.Base.{
  String, ◌≡◌, ◌≢◌, ◌∙◌, refl, ap, inl, inr, Bool, Bool-cases, Option-cases, false, Option, none,
  some, List, [], ◌∷◌, arith, ltb, ◌==◌, string_eq, nat_eq, map, count_where, All,
}
use groupware_migrator.Domain.Types.{JobStatus, failed, pending}
use groupware_migrator.State.Schema.{JobRow, BatchItemRow, Store}
use groupware_migrator.State.Jobs.{is_status}
use groupware_migrator.State.Batches.{
  batch_rows, joined_job, item_status, counts_failed, batch_summary_counts,
}
use groupware_migrator.State.Batches.Items.{
  BatchItem, item_view, insert_row, by_row_number, list_batch_items,
}

abbrev pub shows : JobStatus → BatchItem → Bool
shows status item = is_status item.status status

-- A submission error is a text that is not empty, as the exceptions' texts are.
abbrev pub HasErrorText : BatchItemRow → Type 0
HasErrorText item = item.submit_error ≢ some ""

count_where-insert_row :
    (p : BatchItemRow → Bool) (item : BatchItemRow) (items : List BatchItemRow)
    → count_where p (insert_row item items) ≡ count_where p (item ∷ items)
unfolding insert_row count_where
count_where-insert_row p item [] = refl
count_where-insert_row p item (i ∷ items) = ground (arith, count_where-insert_row p item items)

count_where-by_row_number :
    (p : BatchItemRow → Bool) (items : List BatchItemRow)
    → count_where p (by_row_number items) ≡ count_where p items
unfolding by_row_number count_where
count_where-by_row_number p [] = refl
count_where-by_row_number p (item ∷ items) =
    count_where-insert_row p item (by_row_number items)
    ∙ ground (arith, count_where-by_row_number p items)

item_view-failed :
    (s : Store) (item : BatchItemRow)
    → HasErrorText item
    → shows failed (item_view s item) ≡ counts_failed s item
unfolding item_view item_status counts_failed joined_job is_status
item_view-failed s item text = elim (Option-cases item.submit_error) [
  | inl e ↦ rw e (joined (joined_job item s))
  | inr (error, e) ↦ rw (e, filled error e) refl
]
  where
    joined :
        (o : Option JobRow)
        → is_status (elim o [ none ↦ pending | some job ↦ job.status ]) failed
          ≡ (elim o [ none ↦ false | some job ↦ is_status job.status failed ])
    joined none = refl
    joined (some job) = refl

    filled : (error : String) → item.submit_error ≡ some error → (error == "") ≡ false
    filled error e = elim (Bool-cases (error == "")) [
      | inl b ↦ absurd (text (e ∙ ap some ((string_eq.beq_iff error "").0 b)))
      | inr b ↦ b
    ]

count_where-map :
    {A B : Type 0} (p : B → Bool) (q : A → Bool) (f : A → B) (xs : List A)
    → All (λ x. p (f x) ≡ q x) xs
    → count_where p (map f xs) ≡ count_where q xs
unfolding count_where
count_where-map p q f [] h = refl
count_where-map p q f (x ∷ xs) h = ground (arith, h.0, count_where-map p q f xs h.1)

All-insert_row :
    (P : BatchItemRow → Type 0) (item : BatchItemRow) (items : List BatchItemRow)
    → P item
    → All P items
    → All P (insert_row item items)
unfolding insert_row
All-insert_row P item [] x h = (x, tt)
All-insert_row P item (i ∷ items) x h = elim (Bool-cases (ltb i.row_number item.row_number)) [
  | inl e ↦ rw e (h.0, All-insert_row P item items x h.1)
  | inr e ↦ rw e (x, h)
]

All-by_row_number :
    (P : BatchItemRow → Type 0) (items : List BatchItemRow)
    → All P items
    → All P (by_row_number items)
unfolding by_row_number
All-by_row_number P [] h = tt
All-by_row_number P (item ∷ items) h =
    All-insert_row P item (by_row_number items) h.0 (All-by_row_number P items h.1)

All-shows :
    (s : Store) (items : List BatchItemRow)
    → All HasErrorText items
    → All (λ item. shows failed (item_view s item) ≡ counts_failed s item) items
All-shows s [] h = tt
All-shows s (item ∷ items) h = (item_view-failed s item h.0, All-shows s items h.1)

-- The listing of a batch shows as many failed rows as the summary of the batch counts, where every
-- submission error is a text that is not empty.
pub list_batch_items-failed :
    (batch_id : String) (s : Store)
    → All HasErrorText (batch_rows batch_id s)
    → count_where (shows failed) (list_batch_items batch_id s)
      ≡ (batch_summary_counts batch_id s).failed_rows
unfolding list_batch_items batch_summary_counts
list_batch_items-failed batch_id s text =
    let rows = batch_rows batch_id s in
    count_where-map (shows failed) (counts_failed s) (item_view s) (by_row_number rows)
      (All-by_row_number _ rows (All-shows s rows text))
    ∙ count_where-by_row_number (counts_failed s) rows
