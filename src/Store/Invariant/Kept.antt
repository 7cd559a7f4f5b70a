-- ===== src/Store/Invariant/Kept.antt =====
-- Every operation of the store keeps its documents sound.
use llmd.Prelude.{ℕ, ◌+◌, Bool, Option, none, some, Bytes, arith}
use llmd.Validate
use llmd.Store.{Document, Link, lift, query}
use llmd.Store.Keeps.{Keeps, Keeps-lift, Keeps-query, Keeps-bind, Keeps-then, Keeps-tx}
use llmd.Store.Write.{
  WriteOptions, new_version, max_version, write, delete, delete_version, restore,
}
use llmd.Store.Move.{move, copy}
use llmd.Store.Move.Copies.{copied}
use llmd.Store.Tags.{TagOptions, tag, untag}
use llmd.Store.Links.{
  LinkOptions, link, existing_or_new, unlink_by_id, unlink_by_tag, delete_links_for_path,
}
use llmd.Store.Vacuum.{vacuum}
use llmd.Store.Invariant.Sound.{
  AllSound, path-IsSafe, Keeps-checked, insert_document-AllSound, moved_documents-AllSound,
  sound_rules,
}

pub write-AllSound :
    (p text : Bytes) (opts : WriteOptions) (key : Bytes) (now : ℕ)
    → Keeps AllSound (write p text opts key now)
unfolding write
write-AllSound p text opts key now =
    Keeps-checked AllSound (Validate.path p opts.max_path) _ (λ path ok_path.
      Keeps-then AllSound (lift (Validate.content text opts.max_content)) _ (Keeps-lift AllSound _)
        (Keeps-tx AllSound _ (
          Keeps-bind AllSound (query (max_version path)) _ (Keeps-query AllSound _) (λ n.
            insert_document-AllSound (new_version path text (n + 1) opts key now)
              (λ id. (omega arith, path-IsSafe p opts.max_path ok_path))))))

pub move-AllSound : (src dst : Bytes) (max_path : ℕ) → Keeps AllSound (move src dst max_path)
unfolding move
move-AllSound src dst max_path =
    Keeps-checked AllSound (Validate.path src max_path) _ (λ from ok_from.
      Keeps-checked AllSound (Validate.path dst max_path) _ (λ to ok_to.
        let carried =
          λ (p : Document → Bool). moved_documents-AllSound p to (path-IsSafe dst max_path ok_to) in
        search (sound_rules, carried) depth 14))

pub copy-AllSound :
    (from to copier : Bytes) (max_path : ℕ) (key : Bytes) (now : ℕ)
    → Keeps AllSound (copy from to copier max_path key now)
unfolding copy
copy-AllSound from to copier max_path key now =
    Keeps-checked AllSound (Validate.path from max_path) _ (λ src ok_src.
      Keeps-checked AllSound (Validate.path to max_path) _ (λ dst ok_dst.
        let added = λ (source : Document).
          insert_document-AllSound (λ id. copied source src dst copier key now id)
            (λ id. (omega arith, path-IsSafe to max_path ok_dst)) in
        search (sound_rules, added) depth 14))

pub delete-AllSound : (p : Bytes) (max_path now : ℕ) → Keeps AllSound (delete p max_path now)
unfolding delete
delete-AllSound p max_path now = search sound_rules

pub delete_version-AllSound :
    (p : Bytes) (v max_path now : ℕ) → Keeps AllSound (delete_version p v max_path now)
unfolding delete_version
delete_version-AllSound p v max_path now = search sound_rules

pub restore-AllSound : (p : Bytes) (max_path : ℕ) → Keeps AllSound (restore p max_path)
unfolding restore
restore-AllSound p max_path = search sound_rules

pub tag-AllSound :
    (p label : Bytes) (opts : TagOptions) (key : Bytes) (now : ℕ)
    → Keeps AllSound (tag p label opts key now)
unfolding tag
tag-AllSound p label opts key now = search sound_rules depth 14

pub untag-AllSound :
    (p label : Bytes) (opts : TagOptions) (now : ℕ) → Keeps AllSound (untag p label opts now)
unfolding untag
untag-AllSound p label opts now = search sound_rules depth 14

existing_or_new-AllSound : (o : Option Link) (row : Link) → Keeps AllSound (existing_or_new o row)
existing_or_new-AllSound none row = search sound_rules
existing_or_new-AllSound (some l) row = search sound_rules

pub link-AllSound :
    (from to label : Bytes) (opts : LinkOptions) (key : Bytes) (now : ℕ)
    → Keeps AllSound (link from to label opts key now)
unfolding link
link-AllSound from to label opts key now = search (sound_rules, existing_or_new-AllSound) depth 14

pub unlink_by_id-AllSound : (key : Bytes) (now : ℕ) → Keeps AllSound (unlink_by_id key now)
unfolding unlink_by_id
unlink_by_id-AllSound key now = search sound_rules

pub unlink_by_tag-AllSound :
    (label : Bytes) (opts : LinkOptions) (now : ℕ) → Keeps AllSound (unlink_by_tag label opts now)
unfolding unlink_by_tag
unlink_by_tag-AllSound label opts now = search sound_rules

pub delete_links_for_path-AllSound :
    (p : Bytes) (opts : LinkOptions) (now : ℕ) → Keeps AllSound (delete_links_for_path p opts now)
unfolding delete_links_for_path
delete_links_for_path-AllSound p opts now = search sound_rules

pub vacuum-AllSound :
    (older_than : Option ℕ) (p : Bytes) (now : ℕ) → Keeps AllSound (vacuum older_than p now)
unfolding vacuum
vacuum-AllSound older_than p now = search sound_rules depth 14
