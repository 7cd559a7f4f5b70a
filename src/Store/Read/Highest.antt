-- ===== src/Store/Read/Highest.antt =====
-- Which row is read at a path: the highest of its versions.
use llmd.Prelude.{
  ◌≤◌, ◌≡◌, ap, inl, inr, Bool, true, false, ◌&&◌, ◌||◌, List, [], ◌∷◌, Option, none, some, first,
  Bytes, str_eq, All, In, ok, err, err_not_found, Result, Error, refl, ap, arith,
}
use llmd.Sql.{
  select, order_by, In-select, In-ordered, first-In, no_first, All-of_In, In-select_of, In-order_by,
  order_by-IsOrdered, IsOrdered, All-selected, All-In,
}
use llmd.Store.{Document, Db, or_not_found}
use llmd.Store.Read.{newer, is_active, at_path, latest}

pub found_first : (o : Option Document) (d : Document) → or_not_found o ≡ ok d → o ≡ some d
found_first none d h = cc
found_first (some a) d h = cc

some-inj : (a b : Document) → some a ≡ some b → a ≡ b
some-inj a b h = cc

-- The first row of a descending list is as new as each other.
first-newest :
    (rows : List Document) (d r : Document)
    → IsOrdered newer rows
    → first rows ≡ some d
    → In r rows
    → r.version ≤ d.version
first-newest [] d r h k m = absurd m
first-newest (x ∷ rows) d r h k (inl e) =
    omega (arith, ap (λ q. q.version) e, ap (λ q. q.version) (some-inj x d k))
first-newest (x ∷ rows) d r h k (inr m) =
    let above = All-In (λ y. newer x y ≡ true) rows r h.0 m in
    ground (arith, ap (λ q. q.version) (some-inj x d k))

newer_total : (a b : Document) → newer a b ≡ false → newer b a ≡ true
newer_total a b h = ground arith

newer_trans : (a b c : Document) → newer a b ≡ true → newer b c ≡ true → newer a c ≡ true
newer_trans a b c h k = ground arith

-- No row that is asked for is above the one that is read.
pub latest-highest :
    (db : Db) (path : Bytes) (inc : Bool) (d r : Document)
    → latest db path inc ≡ ok d
    → In r db.documents
    → at_path path inc r ≡ true
    → r.version ≤ d.version
unfolding latest
latest-highest db path inc d r h m k =
    first-newest (order_by newer (select (at_path path inc) db.documents)) d r
      (order_by-IsOrdered newer newer_total newer_trans (select (at_path path inc) db.documents))
      (found_first _ d h)
      (In-order_by newer r (select (at_path path inc) db.documents)
        (In-select_of (at_path path inc) r db.documents m k))

pub row_of_latest :
    (db : Db) (path : Bytes) (inc : Bool) (d : Document)
    → latest db path inc ≡ ok d
    → In d db.documents × (at_path path inc d ≡ true)
unfolding latest
row_of_latest db path inc d h =
    In-select (at_path path inc) d db.documents (
      In-ordered newer d (select (at_path path inc) db.documents)
        (first-In _ d (found_first _ d h)))

-- the rows that a caller asks for: those of a path, without the deleted ones unless he wants them
abbrev pub asked : Bytes → Bool → List Document → List Document
asked path inc = select (λ d. str_eq d.path path && (inc || is_active d))

-- One of the rows that are asked for, not below any other, or the error that there is none.
abbrev pub IsLatest : Db → Bytes → Bool → Result Document → Type 0
IsLatest db path inc (ok d) =
    In d (asked path inc db.documents)
    × All (λ r. r.version ≤ d.version) (asked path inc db.documents)
IsLatest db path inc (err e) = (e ≡ err_not_found) × (asked path inc db.documents ≡ [])

no_rows :
    (rows : List Document) (e : Error)
    → or_not_found (first (order_by newer rows)) ≡ err e
    → (e ≡ err_not_found) × (rows ≡ [])
no_rows rows e h = by_rows rows refl
  where
    not_found : (o : Option Document) → or_not_found o ≡ err e → (e ≡ err_not_found) × (o ≡ none)
    not_found none k = (cc, refl)
    not_found (some d) k = cc

    by_rows : (xs : List Document) → rows ≡ xs → (e ≡ err_not_found) × (rows ≡ [])
    by_rows [] k = ((not_found (first (order_by newer rows)) h).0, k)
    by_rows (x ∷ xs) k =
        let no =
          no_first (order_by newer rows) x (In-order_by newer x rows (rw k (inl refl)))
            (not_found (first (order_by newer rows)) h).1 in
        cc

-- What is read at a path is a row of this path, not deleted unless deleted rows are asked for, and
-- no such row has a higher version; the read fails, as not found, only if there is no such row.
pub latest-IsLatest :
    (db : Db) (path : Bytes) (inc : Bool) → IsLatest db path inc (latest db path inc)
latest-IsLatest db path inc = by_result (latest db path inc) refl
  where
    by_result : (r : Result Document) → latest db path inc ≡ r → IsLatest db path inc r
    by_result (err e) h = no_rows (asked path inc db.documents) e (unfold latest in h)
    by_result (ok d) h =
        let (i, there) = row_of_latest db path inc d h in
        (
          In-select_of _ d db.documents i there,
          All-selected _ _ db.documents
              (All-of_In _ db.documents (λ r m k. latest-highest db path inc d r h m k)),
        )
