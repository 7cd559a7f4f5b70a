-- ===== src/Store/Read/Listed.antt =====
-- Which rows a list picks: the highest of each path, among those that meet its conditions.
use llmd.Prelude.{
  ◌≤◌, ◌≡◌, ap, inl, inr, Bool, true, false, ◌&&◌, List, [], ◌∷◌, Bytes, str_eq, All, In, refl, ap,
  str_eq_refl, str_eq→eq, sym, ◌∙◌, arith, Option-cases, str_le_total, str_le_trans,
}
use llmd.Sql.{
  select, max_of, max_of-bound, In-select, All-of_In, In-select_of, exists_where, exists_of,
  top_row, max_of-top, In-order_by, order_by-IsOrdered, IsOrdered, All-order_by, All-where,
  All-selected,
}
use llmd.Store.{Document, Db}
use llmd.Store.Read.{by_path, in_prefix, shown, is_latest, list}

and_left : (a b : Bool) → (a && b) ≡ true → a ≡ true
and_left a b h = ground arith

and_right : (a b : Bool) → (a && b) ≡ true → b ≡ true
and_right a b h = ground arith

by_path_total : (a b : Document) → by_path a b ≡ false → by_path b a ≡ true
by_path_total a b h = str_le_total a.path b.path h

by_path_trans : (a b c : Document) → by_path a b ≡ true → by_path b c ≡ true → by_path a c ≡ true
by_path_trans a b c h k = str_le_trans a.path b.path c.path h k

-- the condition of the inner and of the outer query
abbrev pub listed : Bytes → Bool → Bool → Document → Bool
listed pre inc del d = in_prefix pre d.path && shown inc del d

-- No row of the same path that meets the condition is above this one.
abbrev pub IsHighest : (Document → Bool) → List Document → Document → Type 0
IsHighest cond docs d =
    All (λ r. (cond r && str_eq r.path d.path) ≡ true → r.version ≤ d.version) docs

is_latest-IsHighest :
    (cond : Document → Bool) (docs : List Document) (d : Document)
    → is_latest cond docs d ≡ true
    → IsHighest cond docs d
is_latest-IsHighest cond docs d h =
    elim (Option-cases
      (max_of (λ r. r.version) (select (λ r. cond r && str_eq r.path d.path) docs))) [
        | inl e ↦ let no = (rw (is_latest, e) at h) in cc
        | inr (v, e) ↦
            All-where (λ r. r.version ≤ d.version) (λ r. cond r && str_eq r.path d.path) docs
              (max_of-bound (λ r. r.version) (select (λ r. cond r && str_eq r.path d.path) docs)
                d.version (let same = (rw (is_latest, e) at h) in rw e (ground arith)))
      ]

-- The highest row of a path is the one that the join keeps.
pub highest_is_latest :
    (cond : Document → Bool) (docs : List Document) (d : Document)
    → In d docs
    → cond d ≡ true
    → IsHighest cond docs d
    → is_latest cond docs d ≡ true
highest_is_latest cond docs d i there top =
    rw
      (
        is_latest,
        max_of-top (λ r. r.version) d (select (λ r. cond r && str_eq r.path d.path) docs)
            (In-select_of _ d docs i (ground (arith, str_eq_refl d.path)))
            (All-selected _ _ docs top),
      )
      (ground arith)

-- Where a path has a row that meets a condition, it has a highest one.
path_row-IsHighest :
    (cond : Document → Bool) (docs : List Document) (r : Document)
    → In r docs
    → cond r ≡ true
    → (d : Document) × In d docs × (cond d ≡ true) × (d.path ≡ r.path) × IsHighest cond docs d
path_row-IsHighest cond docs r i there =
    let (d, j, above) =
      top_row (λ q. q.version) r (select (λ q. cond q && str_eq q.path r.path) docs)
        (In-select_of _ r docs i (ground (arith, str_eq_refl r.path))) in
    let (k, e) = In-select _ d docs j in
    let same : d.path ≡ r.path = str_eq→eq d.path r.path (ground arith) in
    (d, k, ground arith, same, rw same (All-where _ _ docs above))

-- the rows of the table that a list consists of
abbrev pub IsListed : (Document → Bool) → List Document → Document → Type 0
IsListed cond docs d = In d docs × (cond d ≡ true) × IsHighest cond docs d

-- A row that the join keeps has the prefix, since its path has a row that does.
pub joined_prefix :
    (pre : Bytes) (inc del : Bool) (docs : List Document) (d : Document)
    → is_latest (listed pre inc del) docs d ≡ true
    → in_prefix pre d.path ≡ true
unfolding max_of
joined_prefix pre inc del docs d h =
    by_group (select (λ r. listed pre inc del r && str_eq r.path d.path) docs) refl
  where
    by_group :
        (rows : List Document)
        → select (λ r. listed pre inc del r && str_eq r.path d.path) docs ≡ rows
        → in_prefix pre d.path ≡ true
    by_group [] k = let no = (rw (is_latest, k) at h) in cc
    by_group (r ∷ rows) k =
        let (i, e) =
          In-select (λ r. listed pre inc del r && str_eq r.path d.path) r docs (rw k (inl refl)) in
        ap (in_prefix pre) (sym (str_eq→eq r.path d.path (ground arith))) ∙ ground arith

row_of_join :
    (pre : Bytes) (inc del : Bool) (docs : List Document) (d : Document)
    → In d docs
    → (is_latest (listed pre inc del) docs d && shown inc del d) ≡ true
    → IsListed (listed pre inc del) docs d
row_of_join pre inc del docs d i h =
    let prefixed = joined_prefix pre inc del docs d (and_left _ (shown inc del d) h) in
    (
      i,
      ground arith,
      is_latest-IsHighest (listed pre inc del) docs d (and_left _ (shown inc del d) h),
    )

path_listed :
    (db : Db) (pre : Bytes) (inc del : Bool) (r : Document)
    → In r db.documents
    → listed pre inc del r ≡ true
    → exists_where (λ d. str_eq d.path r.path) (list db pre inc del) ≡ true
unfolding list
path_listed db pre inc del r i there =
    let (d, j, met, same, top) = path_row-IsHighest (listed pre inc del) db.documents r i there in
    let kept = highest_is_latest (listed pre inc del) db.documents d j met top in
    exists_of (λ d. str_eq d.path r.path) d _
      (In-order_by by_path d _ (
        In-select_of (λ d. is_latest (listed pre inc del) db.documents d && shown inc del d) d
          db.documents j (rw kept (ground arith))))
      (rw same (str_eq_refl r.path))

-- A list of documents is sorted by path. Each of its rows is one of the table that has the prefix,
-- is deleted or not as the flags ask, and has the highest version of such rows of its path; and
-- every path that has such a row is listed.
pub list-IsHighest :
    (db : Db) (pre : Bytes) (inc del : Bool)
    → IsOrdered by_path (list db pre inc del)
      × All (IsListed (listed pre inc del) db.documents) (list db pre inc del)
      × All
          (λ r. exists_where (λ d. str_eq d.path r.path) (list db pre inc del) ≡ true)
          (select (listed pre inc del) db.documents)
list-IsHighest db pre inc del = (
  unfold list in
      (order_by-IsOrdered by_path by_path_total by_path_trans (
        select (λ d. is_latest (listed pre inc del) db.documents d && shown inc del d)
          db.documents)),
  unfold list in
      (All-order_by _ by_path _ (
        All-selected _ _ db.documents
          (All-of_In _ db.documents (λ d. row_of_join pre inc del db.documents d)))),
  All-selected _ _ db.documents (All-of_In _ db.documents (λ r. path_listed db pre inc del r)),
)
