-- ===== src/Store/Tags/Rows.antt =====
-- The row of a label among the rows of the table.
use llmd.Prelude.{
  ℕ, ◌≡◌, ◌∙◌, inl, inr, Bool, true, false, not, ◌&&◌, Bytes, str_eq, str_eq_iff, List, arith,
  Bool-cases, if◌then◌else◌,
}
use llmd.Sql.{
  exists_where, update_where, exists_where-updated, exists_where-ext, exists_where-update_ne,
}
use llmd.Store.{Tag}
use llmd.Store.Tags.{is_tag, tag_is_active, delete_tag}

abbrev pub deleted_label : Bytes → Bytes → Bytes → Tag → Bool
deleted_label path source label t = is_tag path source label t && not (tag_is_active t)

abbrev pub active_label : Bytes → Bytes → Bytes → Tag → Bool
active_label path source label t = is_tag path source label t && tag_is_active t

is_tag-other :
    (p s l p' s' l' : Bytes) (t : Tag)
    → is_tag p s l t ≡ true
    → (str_eq p p' && (str_eq s s' && str_eq l l')) ≡ false
    → is_tag p' s' l' t ≡ false
is_tag-other p s l p' s' l' t h k = ground (
  arith,
  str_eq_iff t.path p,
  str_eq_iff t.source s,
  str_eq_iff t.tag l,
  str_eq_iff t.path p',
  str_eq_iff t.source s',
  str_eq_iff t.tag l',
  str_eq_iff p p',
  str_eq_iff s s',
  str_eq_iff l l',
)

is_tag-same :
    (p s l p' s' l' : Bytes) (t : Tag)
    → (str_eq p p' && (str_eq s s' && str_eq l l')) ≡ true
    → is_tag p' s' l' t ≡ is_tag p s l t
is_tag-same p s l p' s' l' t k = ground (arith, str_eq_iff p p', str_eq_iff s s', str_eq_iff l l')

-- a label of a path, after this or another label of this or another path is deleted
pub active_label-deleted :
    (p s l p' s' l' : Bytes) (now : ℕ) (tags : List Tag)
    → exists_where (active_label p' s' l') (update_where (active_label p s l) (delete_tag now) tags)
      ≡ (if str_eq p p' && (str_eq s s' && str_eq l l')
          then false
          else exists_where (active_label p' s' l') tags)
active_label-deleted p s l p' s' l' now tags =
    elim (Bool-cases (str_eq p p' && (str_eq s s' && str_eq l l'))) [
      | inl e ↦ rw e (
          exists_where-ext _ _ (update_where (active_label p s l) (delete_tag now) tags)
            (λ t. rw (is_tag-same p s l p' s' l' t e))
          ∙ exists_where-updated (active_label p s l) (delete_tag now) tags (λ t h. ground arith))
      | inr e ↦ rw e (
          exists_where-update_ne (active_label p' s' l') (active_label p s l) (delete_tag now) tags
            (λ t h. ground (arith, is_tag-other p s l p' s' l' t)))
    ]

pub none_left :
    (p s l p' s' l' : Bytes) (tags : List Tag)
    → exists_where (active_label p s l) tags ≡ false
    → (str_eq p p' && (str_eq s s' && str_eq l l')) ≡ true
    → exists_where (active_label p' s' l') tags ≡ false
none_left p s l p' s' l' tags h e =
    exists_where-ext _ _ tags (λ t. rw (is_tag-same p s l p' s' l' t e)) ∙ h
