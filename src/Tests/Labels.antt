-- ===== src/Tests/Labels.antt =====
-- The properties of tags, links and vacuum at concrete inputs.
use llmd.Prelude.{
  ◌≡◌, refl, true, false, not, ◌&&◌, codes, ok, err, err_not_found, some, none, if◌then◌else◌,
  str_eq, [], Bytes,
}
use llmd.Sql.{select}
use llmd.Validate
use llmd.Store.{Db}
use llmd.Store.Write.{delete}
use llmd.Store.Tags.{tag, untag}
use llmd.Store.Tags.Labels.{has_tag, tag-idempotent, untag-removes}
use llmd.Store.Links.{link}
use llmd.Store.Links.Relations.{linked_id, link-idempotent}
use llmd.Store.Vacuum.{vacuum, has_document}
use llmd.Store.Vacuum.Kept.{old_tag, old_link, kept, vacuum-kept}
use llmd.Tests.Database.{sample, tag_opts, link_opts, valid_a, valid_b}

abbrev a : Bytes
a = codes "docs/a"

abbrev b : Bytes
b = codes "docs/b"

abbrev todo : Bytes
todo = codes "todo"

abbrev docs : Bytes
docs = codes "documents"

valid_todo : Validate.tag todo ≡ ok tt
unfolding Validate.tag
valid_todo = refl

tagged : (tag a todo tag_opts (codes "t1") 20 sample).0 ≡ ok tt
unfolding tag Validate.path Validate.tag
tagged = refl

tag-idempotent_example :
    (has_tag a docs todo (tag a todo tag_opts (codes "t1") 20 sample).1 ≡ true)
    × (tag a todo tag_opts (codes "t2") 30 (tag a todo tag_opts (codes "t1") 20 sample).1
        ≡ (ok tt, (tag a todo tag_opts (codes "t1") 20 sample).1))
tag-idempotent_example =
    tag-idempotent a todo tag_opts valid_a valid_todo (codes "t1") (codes "t2") 20 30 sample tagged

abbrev with_tag : Db
unfolding tag
with_tag = (tag a todo tag_opts (codes "t1") 20 sample).1

untag-removes_example :
    ((untag a todo tag_opts 40 with_tag).0
      ≡ (if has_tag a docs todo with_tag then ok tt else err err_not_found))
    × (has_tag a docs (codes "done") (untag a todo tag_opts 40 with_tag).1 ≡ (
        if str_eq a a && (str_eq docs docs && str_eq todo (codes "done"))
        then false
        else has_tag a docs (codes "done") with_tag))
untag-removes_example =
    untag-removes a todo tag_opts valid_a valid_todo 40 with_tag a docs (codes "done")

two_ends : Validate.link a b ≡ ok tt
unfolding Validate.link
two_ends = refl

linked : (link a b [] link_opts (codes "l1") 20 sample).0 ≡ ok (codes "l1")
unfolding link Validate.path Validate.link
linked = refl

link-idempotent_example :
    (linked_id a b [] link_opts (link a b [] link_opts (codes "l1") 20 sample).1
      ≡ some (codes "l1"))
    × (link a b [] link_opts (codes "l2") 30 (link a b [] link_opts (codes "l1") 20 sample).1
        ≡ (ok (codes "l1"), (link a b [] link_opts (codes "l1") 20 sample).1))
link-idempotent_example =
    link-idempotent a b [] link_opts valid_a valid_b two_ends (codes "l1") (codes "l2") (codes "l1")
      20 30 sample linked

abbrev trash : Db
unfolding delete
trash = (delete a 1024 12 with_tag).1

vacuum-kept_example :
    ((vacuum none b 100 trash).1.documents ≡ kept none b 100 trash)
    × ((vacuum none b 100 trash).1.tags
        ≡ select
            (λ t. not (old_tag none b t) && has_document (kept none b 100 trash) t.path)
            trash.tags)
    × ((vacuum none b 100 trash).1.links
        ≡ select
            (λ l.
              not (old_link none b l)
              && (has_document (kept none b 100 trash) l.from_path
                  && has_document (kept none b 100 trash) l.to_path))
            trash.links)
    × ((vacuum none b 100 trash).1.next_id ≡ trash.next_id)
vacuum-kept_example = vacuum-kept none b 100 trash
