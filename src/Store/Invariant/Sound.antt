-- ===== src/Store/Invariant/Sound.antt =====
-- What the checks at the store's boundary make of its documents: an invariant of the operations.
use llmd.Prelude.{
  ℕ, ◌≤◌, ◌≡◌, refl, ◌∙◌, Bool, true, false, List, [], ◌∷◌, ◌++◌, Bytes, is_empty, str_eq, All,
  Result, ok, err, arith, Bool-cases, inl, inr, if◌then◌else◌,
}
use llmd.Sql.{delete_where, update_where, All-select}
use llmd.Text.{contains, contains_byte}
use llmd.Path.{dot, dot_dot, backslash, normalise}
use llmd.Path.Safe.{normalise-IsSafe}
use llmd.Validate
use llmd.Store.{
  Document, Tag, Link, Db, Exec, lift, ◌>>=◌, insert_document, insert_tag, insert_link,
  set_documents, set_tags, set_links, rekey_documents, rekey_tags, rekey_links,
}
use llmd.Store.Keeps.{Keeps, keeps_rules, Keeps-lift, Keeps-query, Keeps-bind, Keeps-then, Keeps-tx}
use llmd.Store.Write.{delete_doc, restore_doc}
use llmd.Store.Vacuum.{delete_documents, delete_tags, delete_links}

-- A path that stays inside the directory of the mirror.
abbrev pub IsSafe : Bytes → Type 0
IsSafe p =
    (is_empty p ≡ false)
    × (str_eq p dot ≡ false)
    × (contains p dot_dot ≡ false)
    × (contains_byte p backslash ≡ false)

abbrev pub IsSound : Document → Type 0
IsSound d = (1 ≤ d.version) × IsSafe d.path

pub record AllSound (db : Db) : Type 0 where
  pub documents : All IsSound db.documents

pub path-IsSafe :
    (p : Bytes) (max_path : ℕ) {q : Bytes} → Validate.path p max_path ≡ ok q → IsSafe q
unfolding Validate.path
path-IsSafe p max_path {q} h = normalise-IsSafe p (accepted (normalise p) refl)
  where
    accepted : (r : Result Bytes) → normalise p ≡ r → normalise p ≡ ok q
    accepted (ok d) k = k ∙ (let l = (rw k at h) in ground arith)
    accepted (err e) k = let l = (rw k at h) in ground arith

-- What follows a check may rely on its result.
pub Keeps-checked :
    {A B : Type 0} (P : Db → Type 0) (r : Result A) (f : A → Exec B)
    → ((a : A) → r ≡ ok a → Keeps P (f a))
    → Keeps P (lift r >>= f)
Keeps-checked P (ok a) f k = record { at = λ db h. (k a refl).at db h }
Keeps-checked P (err e) f k = record { at = λ db h. h }

All-updated :
    {A : Type 0} (P : A → Type 0) (p : A → Bool) (f : A → A) (xs : List A)
    → ((x : A) → P x → P (f x))
    → All P xs
    → All P (update_where p f xs)
unfolding update_where
All-updated P p f [] k h = tt
All-updated P p f (x ∷ xs) k h = elim (Bool-cases (p x)) [
  | inl e ↦ rw e (k x h.0, All-updated P p f xs k h.1)
  | inr e ↦ rw e (h.0, All-updated P p f xs k h.1)
]

All-snoc :
    {A : Type 0} (P : A → Type 0) (xs : List A) (x : A) → All P xs → P x → All P (xs ++ x ∷ [])
All-snoc P [] x h k = (k, tt)
All-snoc P (y ∷ xs) x h k = (h.0, All-snoc P xs x h.1 k)

if_kept :
    {A : Type 0} (b : Bool) (x y : Result A × Db)
    → AllSound x.1
    → AllSound y.1
    → AllSound (if b then x else y).1
if_kept true x y h k = h
if_kept false x y h k = k

-- the statements, those that may be refused among them
pub insert_document-AllSound :
    (row : ℕ → Document) → ((n : ℕ) → IsSound (row n)) → Keeps AllSound (insert_document row)
insert_document-AllSound row k = record {
  at = λ db s.
      if_kept _ _ _ s
        (record { documents = All-snoc IsSound db.documents _ s.documents (k db.next_id) });
}

pub set_documents-AllSound :
    (p : Document → Bool) (f : Document → Document)
    → ((d : Document) → IsSound d → IsSound (f d))
    → Keeps AllSound (set_documents p f)
set_documents-AllSound p f k = record {
  at = λ db s. record { documents = All-updated IsSound p f db.documents k s.documents };
}

pub delete_doc-AllSound :
    (p : Document → Bool) (now : ℕ) → Keeps AllSound (set_documents p (delete_doc now))
delete_doc-AllSound p now = set_documents-AllSound p _ (λ d s. s)

pub restore_doc-AllSound : (p : Document → Bool) → Keeps AllSound (set_documents p restore_doc)
restore_doc-AllSound p = set_documents-AllSound p _ (λ d s. s)

pub moved_documents-AllSound :
    (p : Document → Bool) (dst : Bytes)
    → IsSafe dst
    → Keeps AllSound (rekey_documents p (λ d. record d { path = dst }))
moved_documents-AllSound p dst safe = record {
  at = λ db s.
      if_kept _ _ _ s
        ((set_documents-AllSound p (λ d. record d { path = dst }) (λ d h. (h.0, safe))).at db s);
}

pub delete_documents-AllSound : (p : Document → Bool) → Keeps AllSound (delete_documents p)
delete_documents-AllSound p = record {
  at = λ db s. record {
    documents = unfold delete_where in All-select IsSound _ db.documents s.documents;
  };
}

pub insert_tag-AllSound : (row : Tag) → Keeps AllSound (insert_tag row)
insert_tag-AllSound row = record {
  at = λ db s. if_kept _ _ _ s (record { documents = s.documents });
}

pub set_tags-AllSound : (p : Tag → Bool) (f : Tag → Tag) → Keeps AllSound (set_tags p f)
set_tags-AllSound p f = record { at = λ db s. record { documents = s.documents } }

pub rekey_tags-AllSound : (p : Tag → Bool) (f : Tag → Tag) → Keeps AllSound (rekey_tags p f)
rekey_tags-AllSound p f = record {
  at = λ db s. if_kept _ _ _ s (record { documents = s.documents });
}

pub insert_link-AllSound : (row : Link) → Keeps AllSound (insert_link row)
insert_link-AllSound row = record {
  at = λ db s. if_kept _ _ _ s (record { documents = s.documents });
}

pub set_links-AllSound : (p : Link → Bool) (f : Link → Link) → Keeps AllSound (set_links p f)
set_links-AllSound p f = record { at = λ db s. record { documents = s.documents } }

pub rekey_links-AllSound : (p : Link → Bool) (f : Link → Link) → Keeps AllSound (rekey_links p f)
rekey_links-AllSound p f = record {
  at = λ db s. if_kept _ _ _ s (record { documents = s.documents });
}

pub delete_tags-AllSound : (p : Db → Tag → Bool) → Keeps AllSound (λ db. delete_tags (p db) db)
delete_tags-AllSound p = record { at = λ db s. record { documents = s.documents } }

pub delete_links-AllSound : (p : Db → Link → Bool) → Keeps AllSound (λ db. delete_links (p db) db)
delete_links-AllSound p = record { at = λ db s. record { documents = s.documents } }

pub ruleset sound_rules = (
  keeps_rules, delete_doc-AllSound, restore_doc-AllSound, delete_documents-AllSound,
  insert_tag-AllSound, set_tags-AllSound, rekey_tags-AllSound, insert_link-AllSound,
  set_links-AllSound, rekey_links-AllSound, delete_tags-AllSound, delete_links-AllSound,
)
