-- ===== src/Tests/Database.antt =====
-- A small database, built by the store's own operations, and what they do on it.
use llmd.Prelude.{
  ℕ, [], ◌∷◌, none, Bytes, codes, ok, err, str_eq, str_le, constraint, err_already_exists, ◌≡◌,
  refl,
}
use llmd.Validate
use llmd.Store.{Document, Db, empty}
use llmd.Store.Read.{list_paths}
use llmd.Store.Write.{WriteOptions, write, delete}
use llmd.Store.Move.{move, copy}
use llmd.Store.Tags.{TagOptions, tag, list_tags}
use llmd.Store.Links.{LinkOptions, link, list_orphan_link_paths}
use llmd.Store.Vacuum.{vacuum}

abbrev pub opts : WriteOptions
opts = record { author = codes "ann"; message = []; max_path = 1024; max_content = 1000 }

abbrev pub tag_opts : TagOptions
tag_opts = record { source = codes "documents"; max_path = 1024 }

abbrev pub link_opts : LinkOptions
link_opts = record {
  from_source = codes "documents";
  to_source = codes "documents";
  max_path = 1024;
}

abbrev pub row : ℕ → Bytes → Bytes → Bytes → ℕ → ℕ → Document
row id key path content version now = record {
  id = id;
  key = key;
  path = path;
  content = content;
  version = version;
  author = codes "ann";
  message = [];
  created_at = now;
  deleted_at = none;
}

-- two versions of docs/a, one of docs/b
abbrev pub sample : Db
sample = record {
  documents =
      row 1 (codes "k1") (codes "docs/a") (codes "one") 1 10
      ∷ row 2 (codes "k2") (codes "docs/a") (codes "two") 2 11
      ∷ row 3 (codes "k3") (codes "docs/b") (codes "b") 1 12
      ∷ [];
  tags = [];
  links = [];
  next_id = 4;
}

-- `sample` is what three writes make of an empty database.
write_test :
    (write
      (codes "docs/b")
      (codes "b")
      opts
      (codes "k3")
      12
      (write
        (codes "docs/a")
        (codes "two")
        opts
        (codes "k2")
        11
        (write (codes "/docs//a.md") (codes "one") opts (codes "k1") 10 empty).1).1)
    ≡ (ok tt, sample)
unfolding write Validate.path Validate.content
write_test = refl

pub valid_a : Validate.path (codes "docs/a") 1024 ≡ ok (codes "docs/a")
unfolding Validate.path
valid_a = refl

pub valid_b : Validate.path (codes "docs/b") 1024 ≡ ok (codes "docs/b")
unfolding Validate.path
valid_b = refl

pub valid_c : Validate.path (codes "docs/c.md") 1024 ≡ ok (codes "docs/c")
unfolding Validate.path
valid_c = refl

pub fits_small : Validate.content (codes "three") 1000 ≡ ok tt
unfolding Validate.content
fits_small = refl

list_test : list_paths sample (codes "docs") ≡ codes "docs/a" ∷ codes "docs/b" ∷ []
unfolding list_paths str_eq str_le
list_test = refl

-- Copying onto a path that has only deleted versions runs into the UNIQUE clause.
copy_onto_deleted :
    (copy
      (codes "docs/a")
      (codes "docs/b")
      (codes "bob")
      1024
      (codes "k4")
      13
      (delete (codes "docs/b") 1024 12 sample).1).0
    ≡ err constraint
unfolding copy delete Validate.path
copy_onto_deleted = refl

move_taken : (move (codes "docs/a") (codes "docs/b") 1024 sample).0 ≡ err err_already_exists
unfolding move Validate.path
move_taken = refl

orphan_test :
    list_orphan_link_paths
      (link (codes "docs/a") (codes "docs/x") [] link_opts (codes "l1") 20 sample).1
      link_opts
    ≡ codes "docs/b" ∷ []
unfolding list_orphan_link_paths link Validate.path Validate.link
orphan_test = refl

tag_test :
    list_tags (tag (codes "docs/a") (codes "todo") tag_opts (codes "t1") 20 sample).1 [] tag_opts
    ≡ codes "todo" ∷ []
unfolding list_tags tag Validate.path Validate.tag
tag_test = refl

vacuum_test : (vacuum none [] 100 (delete (codes "docs/a") 1024 12 sample).1).0 ≡ ok 2
unfolding vacuum delete Validate.path
vacuum_test = refl
