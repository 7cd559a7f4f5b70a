-- ===== src/Store/Vacuum/Kept.antt =====
-- What `vacuum` keeps and what it removes.
use llmd.Prelude.{
  ℕ, ap, is_null, length, ◌+◌, ◌-◌, ◌∙◌, ◌≡◌, refl, Bool, false, not, ◌&&◌, ◌||◌, Bytes, str_eq,
  List, [], ◌∷◌, Option, none, some, ok, arith,
}
use llmd.Sql.{select, delete_where, select-select, select-ext, count_where}
use llmd.Store.{Document, Tag, Link, Db}
use llmd.Store.Read.{history, in_prefix, at_path}
use llmd.Store.Vacuum.{vacuum, cutoff, expired, has_document}

-- the rows that the prefix and the age condemn
abbrev pub old_document : Option ℕ → Bytes → Document → Bool
old_document limit pre d = expired limit d.deleted_at && in_prefix pre d.path

abbrev pub old_tag : Option ℕ → Bytes → Tag → Bool
old_tag limit pre t = expired limit t.deleted_at && in_prefix pre t.path

abbrev pub old_link : Option ℕ → Bytes → Link → Bool
old_link limit pre l =
    expired limit l.deleted_at && (in_prefix pre l.from_path || in_prefix pre l.to_path)

removed :
    {A : Type 0} (p : A → Bool) (xs : List A)
    → count_where p xs + length (select (λ x. not (p x)) xs) ≡ length xs
unfolding select count_where
removed p [] = refl
removed p (x ∷ xs) = ground (arith, removed p xs)

total :
    (d t l t' l' ds ts ls ts' ls' : ℕ) {docs tags links : ℕ}
    → d + ds ≡ docs
    → t + ts ≡ tags
    → l + ls ≡ links
    → t' + ts' ≡ ts
    → l' + ls' ≡ ls
    → d + t + l + t' + l' ≡ docs + tags + links - (ds + ts' + ls')
total d t l t' l' ds ts ls ts' ls' a b c h k = omega arith

hidden :
    (a b : Bool) (limit t : Option ℕ)
    → (not (expired limit t && a) && (b && is_null t)) ≡ (b && is_null t)
hidden a b limit none = refl
hidden a b limit (some t) = ground arith

cut : (a b : Bool) → (not a && not (not b)) ≡ (not a && b)
cut a b = ground arith

cut_both : (a b c : Bool) → (not a && not (not b || not c)) ≡ (not a && (b && c))
cut_both a b c = ground arith

module _ (older_than : Option ℕ) (pre : Bytes) (now : ℕ) (db : Db) where
  abbrev pub limit : Option ℕ
  limit = cutoff now older_than

  abbrev pub kept : List Document
  kept = select (λ d. not (old_document limit pre d)) db.documents

  -- Vacuum always succeeds. The documents that are left are those that are active, not old enough
  -- or outside of the prefix; the tags and links that are left are those of which the same holds
  -- and of whose every path a document is left.
  pub vacuum-kept :
      ((vacuum older_than pre now db).1.documents ≡ kept)
      × ((vacuum older_than pre now db).1.tags
          ≡ select (λ t. not (old_tag limit pre t) && has_document kept t.path) db.tags)
      × ((vacuum older_than pre now db).1.links
          ≡ select
              (λ l.
                not (old_link limit pre l)
                && (has_document kept l.from_path && has_document kept l.to_path))
              db.links)
      × ((vacuum older_than pre now db).1.next_id ≡ db.next_id)
  unfolding vacuum delete_where
  vacuum-kept = (
    refl,
    select-select _ _ db.tags
        ∙ select-ext _ _ db.tags (λ t. cut (old_tag limit pre t) (has_document kept t.path)),
    select-select _ _ db.links
        ∙ select-ext _ _ db.links (λ l.
          cut_both (old_link limit pre l) (has_document kept l.from_path)
            (has_document kept l.to_path)),
    refl,
  )

  -- A vacuum reports how many rows it removed from the three tables together.
  pub vacuum-count :
      (vacuum older_than pre now db).0
      ≡ ok (
          length db.documents
          + length db.tags
          + length db.links
          - (length (vacuum older_than pre now db).1.documents
              + length (vacuum older_than pre now db).1.tags
              + length (vacuum older_than pre now db).1.links))
  unfolding vacuum delete_where
  vacuum-count = ap ok (
      total _ _ _ _ _ _ _ _ _ _ (removed _ db.documents) (removed _ db.tags) (removed _ db.links)
        (removed _ (select _ db.tags)) (removed _ (select _ db.links)))

  -- A vacuum does not change what is read of active documents.
  pub vacuum-active :
      (path : Bytes) (limit : ℕ)
      → history (vacuum older_than pre now db).1 path limit false ≡ history db path limit false
  unfolding vacuum delete_where history
  vacuum-active path limit = rw (
      select-select (at_path path false) (λ d. not (old_document (cutoff now older_than) pre d))
        db.documents
      ∙ select-ext _ (at_path path false) db.documents (λ d.
        hidden (in_prefix pre d.path) (str_eq d.path path) (cutoff now older_than) d.deleted_at))
