-- ===== src/Ls/Agree.antt =====
-- The long listing shows the documents of the short one.
use llmd.Prelude.{
  Bool, true, false, ◌||◌, List, [], ◌∷◌, map, Bytes, ◌≡◌, refl, Result, ok, err, ◌>>=◌, arith,
}
use llmd.Sql.{select, order_by-map}
use llmd.Store.{Document, Db}
use llmd.Store.Read.{DocumentMeta, to_meta}
use llmd.Store.Read
use llmd.Store.Stats
use llmd.Service.Read.{list, normalize_prefix}
use llmd.Service.Meta.{list_meta}
use llmd.Ls.{
  Options, Listing, SortField, sort_none, sort_name, sort_time, children_only, tagged_only, sorted,
  run, run_long, long_listing, short_listing,
}

select-map :
    {A B : Type 0} (p : B → Bool) (f : A → B) (xs : List A)
    → select p (map f xs) ≡ map f (select (λ x. p (f x)) xs)
unfolding select
select-map p f [] = refl
select-map p f (x ∷ xs) = ground (arith, select-map p f xs)

children-map :
    (recursive : Bool) (pre : Bytes) (docs : List Document)
    → children_only
        (λ (m : DocumentMeta). m.path)
        (λ m. m.created_at)
        recursive
        pre
        (map to_meta docs)
      ≡ map to_meta
          (children_only (λ (d : Document). d.path) (λ d. d.created_at) recursive pre docs)
unfolding children_only
children-map true pre docs = refl
children-map false pre docs = select-map _ to_meta docs

tagged-map :
    (db : Db) (tag : Bytes) (docs : List Document)
    → tagged_only (λ (m : DocumentMeta). m.path) (λ m. m.created_at) db tag (map to_meta docs)
      ≡ map to_meta (tagged_only (λ (d : Document). d.path) (λ d. d.created_at) db tag docs)
unfolding tagged_only
tagged-map db [] docs = refl
tagged-map db (c ∷ tag) docs = select-map _ to_meta docs

sorted-map :
    (field : SortField) (reverse : Bool) (docs : List Document)
    → sorted (λ (m : DocumentMeta). m.path) (λ m. m.created_at) field reverse (map to_meta docs)
      ≡ map to_meta (sorted (λ (d : Document). d.path) (λ d. d.created_at) field reverse docs)
unfolding sorted
sorted-map sort_none reverse docs = refl
sorted-map sort_name reverse docs = order_by-map _ _ to_meta docs (λ x y. refl)
sorted-map sort_time reverse docs = order_by-map _ _ to_meta docs (λ x y. refl)

or_false : (b : Bool) → (b || false) ≡ b
or_false true = refl
or_false false = refl

-- a query of the described rows, after any conversion of the prefix
meta_after :
    (r : Result Bytes) (db : Db) (inc : Bool)
    → (r >>= λ pre. ok (Stats.list_meta db pre inc))
      ≡ ((r >>= λ pre. ok (Read.list db pre inc false)) >>= λ docs. ok (map to_meta docs))
unfolding Stats.list_meta Read.list
meta_after (ok pre) db inc = refl
meta_after (err e) db inc = refl

list_meta-list :
    (db : Db) (pre : Bytes) (inc : Bool)
    → list_meta db pre inc ≡ (list db pre inc false >>= λ docs. ok (map to_meta docs))
unfolding list_meta list
list_meta-list db pre inc = meta_after (normalize_prefix pre) db inc

-- the listing of the same rows by what describes them
abbrev pub described : Listing → Listing
described l = record { documents = []; metas = map to_meta l.documents }

long_after :
    (r : Result (List Document)) (db : Db) (opts : Options)
    → ((r >>= λ docs. ok (map to_meta docs)) >>= λ found. ok (long_listing db opts false found))
      ≡ ((r >>= λ found. ok (short_listing db opts found)) >>= λ l. ok (described l))
unfolding long_listing short_listing
long_after (ok docs) db opts =
    let near =
      children_only (λ (d : Document). d.path) (λ d. d.created_at) opts.recursive opts.pre docs in
    let chosen = tagged_only (λ (d : Document). d.path) (λ d. d.created_at) db opts.tag near in
    rw (
      children-map opts.recursive opts.pre docs,
      tagged-map db opts.tag near,
      sorted-map opts.sort opts.reverse chosen,
    )
long_after (err e) db opts = refl

-- Unless only deleted documents are asked for, the long listing fails where the short one does, and
-- otherwise shows the same documents in the same order.
pub run-described :
    (db : Db) (opts : Options)
    → opts.deleted_only ≡ false
    → run db (record opts { long = true })
      ≡ (run db (record opts { long = false }) >>= λ l. ok (described l))
unfolding run run_long
run-described db opts h =
    rw (h, or_false opts.include_all, list_meta-list)
      (long_after (list db opts.pre opts.include_all false) db opts)
