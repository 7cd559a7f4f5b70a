-- ===== src/Sync/Listed.antt =====
-- The map that a synchronisation makes of the listed documents, beside what is read at each path.
use llmd.Prelude.{
  ◌≡◌, refl, sym, ap, ◌∙◌, ◌⊎◌, inl, inr, true, false, ◌&&◌, List, [], ◌∷◌, Option, Option-cases,
  none, some, Bytes, str_eq, str_eq_iff, In, Result, ok, err, Error, arith, if◌then◌else◌,
  Bool-cases,
}
use llmd.Sql.{select, order_by, In-select_of, In-order_by, All-In, All-of_In, no_first, unique_row}
use llmd.Store.{Document, Db, same_version, or_not_found}
use llmd.Store.Read.{latest, list, at_path, newer, by_path, is_latest, shown, is_active}
use llmd.Store.Read.Highest.{latest-highest, row_of_latest}
use llmd.Store.Read.Listed.{listed, IsHighest, list-IsHighest, highest_is_latest}
use llmd.Store.Invariant.{IsValid, same_version_sym}
use llmd.Sync.Run.{stored_texts}

stored_found :
    (ds : List Document) (p t : Bytes)
    → stored_texts ds p ≡ some t
    → (d : Document) × In d ds × (str_eq d.path p ≡ true) × (d.content ≡ t)
unfolding stored_texts
stored_found [] p t h = cc
stored_found (d ∷ ds) p t h = elim (Option-cases (stored_texts ds p)) [
  | inr (u, e) ↦
      let (r, i, same, text) = stored_found ds p u e in
      (r, inr i, same, text ∙ (let k = (rw e at h) in cc))
  | inl e ↦ here (Bool-cases (str_eq d.path p)) (rw e at h)
]
  where
    here :
        (str_eq d.path p ≡ true) ⊎ (str_eq d.path p ≡ false)
        → (if str_eq d.path p then some d.content else none) ≡ some t
        → (r : Document) × In r (d ∷ ds) × (str_eq r.path p ≡ true) × (r.content ≡ t)
    here (inl e) k = (d, inl refl, e, (let l = (rw e at k) in cc))
    here (inr e) k = let l = (rw e at k) in cc

stored_missing :
    (ds : List Document) (d : Document) (p : Bytes)
    → In d ds
    → str_eq d.path p ≡ true
    → stored_texts ds p ≡ none
    → true ≡ false
unfolding stored_texts
stored_missing [] d p m e h = absurd m
stored_missing (r ∷ ds) d p (inl m) e h =
    let same : str_eq r.path p ≡ true = ap (λ q. str_eq q.path p) (sym m) ∙ e in
    elim (Option-cases (stored_texts ds p)) [
      | inr (u, k) ↦ let l = (rw k at h) in cc
      | inl k ↦ let l = (rw (k, same) at h) in cc
    ]
stored_missing (r ∷ ds) d p (inr m) e h = elim (Option-cases (stored_texts ds p)) [
  | inr (u, k) ↦ let l = (rw k at h) in cc
  | inl k ↦ stored_missing ds d p m e k
]

-- the text that is read at a path
abbrev pub content_of : Result Document → Option Bytes
content_of (ok d) = some d.content
content_of (err _) = none

row_of_list :
    (db : Db) (d : Document)
    → In d (list db [] false false)
    → In d db.documents × (is_active d ≡ true) × IsHighest (listed [] false false) db.documents d
row_of_list db d m =
    let (here, met, highest) =
      All-In _ (list db [] false false) d (list-IsHighest db [] false false).1 m in
    (here, ground arith, highest)

same_path :
    (d r : Document) (p : Bytes)
    → at_path p false d ≡ true
    → (listed [] false false r && str_eq r.path d.path) ≡ true
    → at_path p false r ≡ true
same_path d r p h k =
    ground (arith, str_eq_iff d.path p, str_eq_iff r.path d.path, str_eq_iff r.path p)

is_highest :
    (db : Db) (p : Bytes) (d : Document)
    → latest db p false ≡ ok d
    → In d db.documents
    → at_path p false d ≡ true
    → is_latest (listed [] false false) db.documents d ≡ true
is_highest db p d h i there =
    highest_is_latest (listed [] false false) db.documents d i (ground arith) (
      All-of_In _ db.documents
        (λ r m e. latest-highest db p false d r h m (same_path d r p there e)))

listed_latest :
    (db : Db) (p : Bytes) (d : Document) → latest db p false ≡ ok d → In d (list db [] false false)
unfolding list
listed_latest db p d h =
    let (i, there) = row_of_latest db p false d h in
    In-order_by by_path d _ (
      In-select_of (λ d. is_latest (listed [] false false) db.documents d && shown false false d) d
        db.documents i (rw (is_highest db p d h i there) (ground arith)))

-- A listed row of a path is the one that is read there.
listed_is_latest :
    (db : Db) (p : Bytes) (r d : Document)
    → IsValid db
    → In r (list db [] false false)
    → str_eq r.path p ≡ true
    → latest db p false ≡ ok d
    → r ≡ d
listed_is_latest db p r d v m same h =
    let (i, active, highest) = row_of_list db r m in
    let (j, there) = row_of_latest db p false d h in
    let above = latest-highest db p false d r h i (ground arith) in
    let below =
      All-In _ db.documents d highest j
        (ground (arith, str_eq_iff r.path p, str_eq_iff d.path p, str_eq_iff d.path r.path)) in
    unique_row same_version r d db.documents same_version_sym v.versions i j
      (ground (arith, str_eq_iff r.path p, str_eq_iff d.path p, str_eq_iff r.path d.path))

not_read :
    (db : Db) (p : Bytes) (r : Document) (e : Error)
    → In r (list db [] false false)
    → str_eq r.path p ≡ true
    → latest db p false ≡ err e
    → true ≡ false
unfolding latest
not_read db p r e m same h =
    let (i, active, highest) = row_of_list db r m in
    no_first (order_by newer (select (at_path p false) db.documents)) r
      (In-order_by newer r _ (In-select_of (at_path p false) r db.documents i (ground arith)))
      (not_found _ e h)
  where
    not_found : (o : Option Document) (e : Error) → or_not_found o ≡ err e → o ≡ none
    not_found none e h = refl
    not_found (some d) e h = cc

agree :
    (db : Db) (p : Bytes)
    → IsValid db
    → (o : Option Bytes) (r : Result Document) → stored_texts (list db [] false false) p ≡ o
    → latest db p false ≡ r
    → o ≡ content_of r
agree db p v none (err e) h k = refl
agree db p v none (ok d) h k =
    let (i, there) = row_of_latest db p false d k in
    let no = stored_missing _ d p (listed_latest db p d k) (ground arith) h in cc
agree db p v (some t) (err e) h k =
    let (r, m, same, text) = stored_found _ p t h in let no = not_read db p r e m same k in cc
agree db p v (some t) (ok d) h k =
    let (r, m, same, text) = stored_found _ p t h in
    ap some (sym text ∙ ap (λ d. d.content) (listed_is_latest db p r d v m same k))

-- The map of a synchronisation holds what is read at each path.
pub stored_texts-list :
    (db : Db) (p : Bytes)
    → IsValid db
    → stored_texts (list db [] false false) p ≡ content_of (latest db p false)
stored_texts-list db p v =
    agree db p v (stored_texts (list db [] false false) p) (latest db p false) refl refl
