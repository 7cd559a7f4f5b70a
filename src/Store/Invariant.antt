-- ===== src/Store/Invariant.antt =====
-- The UNIQUE clauses, as an invariant of the database, kept by every operation of the store.
pub mod Reach
pub mod Sound
pub mod Kept
use llmd.Prelude.{ℕ, ◌≡◌, refl, ◌∙◌, Bool, false, str_eq_sym, arith}
use llmd.Sql.{
  delete_where, has_duplicate, has_duplicate-snoc, has_duplicate-select, has_duplicate-update,
}
use llmd.Validate
use llmd.Store.{
  Document, Tag, Link, Db, same_version, same_tag, same_link, insert_document, insert_tag,
  insert_link, set_documents, set_tags, set_links, rekey_documents, rekey_tags, rekey_links,
}
use llmd.Store.Keeps.{Keeps, keeps_rules}
use llmd.Store.Write.{delete_doc, restore_doc, delete_link, restore_link}
use llmd.Store.Tags.{delete_tag, restore_tag}
use llmd.Store.Vacuum.{delete_documents, delete_tags, delete_links}

pub record IsValid (db : Db) : Type 0 where
  pub versions : has_duplicate same_version db.documents ≡ false
  pub tags : has_duplicate same_tag db.tags ≡ false
  pub links : has_duplicate same_link db.links ≡ false

pub same_version_sym : (a b : Document) → same_version a b ≡ same_version b a
same_version_sym a b = ground (arith, str_eq_sym a.path b.path)

same_tag_sym : (a b : Tag) → same_tag a b ≡ same_tag b a
same_tag_sym a b = ground (
  arith,
  str_eq_sym a.id b.id,
  str_eq_sym a.path b.path,
  str_eq_sym a.source b.source,
  str_eq_sym a.tag b.tag,
)

same_link_sym : (a b : Link) → same_link a b ≡ same_link b a
same_link_sym a b = ground (
  arith,
  str_eq_sym a.id b.id,
  str_eq_sym a.from_path b.from_path,
  str_eq_sym a.from_source b.from_source,
  str_eq_sym a.to_path b.to_path,
  str_eq_sym a.to_source b.to_source,
  str_eq_sym a.tag b.tag,
)

pub insert_document-IsValid : (row : ℕ → Document) → Keeps IsValid (insert_document row)
insert_document-IsValid row = record {
  at = λ db v. ground (
    arith,
    has_duplicate-snoc same_version db.documents (row db.next_id)
        (λ x. same_version_sym x (row db.next_id)),
  );
}

pub insert_tag-IsValid : (row : Tag) → Keeps IsValid (insert_tag row)
insert_tag-IsValid row = record {
  at = λ db v. ground (arith, has_duplicate-snoc same_tag db.tags row (λ x. same_tag_sym x row));
}

pub insert_link-IsValid : (row : Link) → Keeps IsValid (insert_link row)
insert_link-IsValid row = record {
  at = λ db v. ground (arith, has_duplicate-snoc same_link db.links row (λ x. same_link_sym x row));
}

pub set_documents-IsValid :
    (p : Document → Bool) (f : Document → Document)
    → ((x y : Document) → same_version (f x) y ≡ same_version x y)
    → ((x y : Document) → same_version x (f y) ≡ same_version x y)
    → Keeps IsValid (set_documents p f)
set_documents-IsValid p f left right = record {
  at = λ db v. record {
    versions = has_duplicate-update same_version p f left right db.documents ∙ v.versions;
    tags = v.tags;
    links = v.links;
  };
}

pub set_tags-IsValid :
    (p : Tag → Bool) (f : Tag → Tag)
    → ((x y : Tag) → same_tag (f x) y ≡ same_tag x y)
    → ((x y : Tag) → same_tag x (f y) ≡ same_tag x y)
    → Keeps IsValid (set_tags p f)
set_tags-IsValid p f left right = record {
  at = λ db v. record {
    versions = v.versions;
    tags = has_duplicate-update same_tag p f left right db.tags ∙ v.tags;
    links = v.links;
  };
}

pub set_links-IsValid :
    (p : Link → Bool) (f : Link → Link)
    → ((x y : Link) → same_link (f x) y ≡ same_link x y)
    → ((x y : Link) → same_link x (f y) ≡ same_link x y)
    → Keeps IsValid (set_links p f)
set_links-IsValid p f left right = record {
  at = λ db v. record {
    versions = v.versions;
    tags = v.tags;
    links = has_duplicate-update same_link p f left right db.links ∙ v.links;
  };
}

pub rekey_documents-IsValid :
    (p : Document → Bool) (f : Document → Document) → Keeps IsValid (rekey_documents p f)
rekey_documents-IsValid p f = record { at = λ db v. ground arith }

pub rekey_tags-IsValid : (p : Tag → Bool) (f : Tag → Tag) → Keeps IsValid (rekey_tags p f)
rekey_tags-IsValid p f = record { at = λ db v. ground arith }

pub rekey_links-IsValid : (p : Link → Bool) (f : Link → Link) → Keeps IsValid (rekey_links p f)
rekey_links-IsValid p f = record { at = λ db v. ground arith }

-- the updates that the operations make, each of columns outside the UNIQUE clauses
pub delete_doc-IsValid :
    (p : Document → Bool) (now : ℕ) → Keeps IsValid (set_documents p (delete_doc now))
delete_doc-IsValid p now = set_documents-IsValid p _ (λ x y. refl) (λ x y. refl)

pub restore_doc-IsValid : (p : Document → Bool) → Keeps IsValid (set_documents p restore_doc)
restore_doc-IsValid p = set_documents-IsValid p _ (λ x y. refl) (λ x y. refl)

pub delete_tag-IsValid : (p : Tag → Bool) (now : ℕ) → Keeps IsValid (set_tags p (delete_tag now))
delete_tag-IsValid p now = set_tags-IsValid p _ (λ x y. refl) (λ x y. refl)

pub restore_tag-IsValid : (p : Tag → Bool) → Keeps IsValid (set_tags p restore_tag)
restore_tag-IsValid p = set_tags-IsValid p _ (λ x y. refl) (λ x y. refl)

pub delete_link-IsValid :
    (p : Link → Bool) (now : ℕ) → Keeps IsValid (set_links p (delete_link now))
delete_link-IsValid p now = set_links-IsValid p _ (λ x y. refl) (λ x y. refl)

pub restore_link-IsValid : (p : Link → Bool) → Keeps IsValid (set_links p restore_link)
restore_link-IsValid p = set_links-IsValid p _ (λ x y. refl) (λ x y. refl)

-- hard deletion
pub delete_documents-IsValid : (p : Document → Bool) → Keeps IsValid (delete_documents p)
delete_documents-IsValid p = record {
  at = λ db v. record {
    versions = unfold delete_where in has_duplicate-select same_version _ db.documents v.versions;
    tags = v.tags;
    links = v.links;
  };
}

pub delete_tags-IsValid : (p : Db → Tag → Bool) → Keeps IsValid (λ db. delete_tags (p db) db)
delete_tags-IsValid p = record {
  at = λ db v. record {
    versions = v.versions;
    tags = unfold delete_where in has_duplicate-select same_tag _ db.tags v.tags;
    links = v.links;
  };
}

pub delete_links-IsValid : (p : Db → Link → Bool) → Keeps IsValid (λ db. delete_links (p db) db)
delete_links-IsValid p = record {
  at = λ db v. record {
    versions = v.versions;
    tags = v.tags;
    links = unfold delete_where in has_duplicate-select same_link _ db.links v.links;
  };
}

pub ruleset valid_rules = (
  keeps_rules, insert_document-IsValid, insert_tag-IsValid, insert_link-IsValid, delete_doc-IsValid,
  restore_doc-IsValid, delete_tag-IsValid, restore_tag-IsValid, delete_link-IsValid,
  restore_link-IsValid, rekey_documents-IsValid, rekey_tags-IsValid, rekey_links-IsValid,
  delete_documents-IsValid, delete_tags-IsValid, delete_links-IsValid,
)
