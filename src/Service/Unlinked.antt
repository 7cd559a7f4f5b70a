-- ===== src/Service/Unlinked.antt =====
-- `UnlinkByTag` lists the links and deletes them at the same time. Both orders of the two.
use llmd.Prelude.{
  ℕ, suc, ◌≡◌, refl, ◌∙◌, ap, Bool, true, false, List, [], ◌∷◌, ◌++◌, append_assoc, append-nil, map,
  length, Bytes, str_eq, ◌&&◌, ok, arith,
}
use llmd.Sql.{
  select, order_by, insert_by, update_where, exists_where-updated, select-none, count_where-length,
}
use llmd.Store.{Link, Db}
use llmd.Store.Links
use llmd.Store.Write.{link_is_active, delete_link}
use llmd.Store.Links.{LinkOptions, list_links_by_tag, by_ends}
use llmd.Service.{Service, State, Event, link_event}
use llmd.Service.Links.{unlink_by_tag, fire_removed}

length-insert_by :
    {A : Type 0} (le : A → A → Bool) (x : A) (ys : List A)
    → length (insert_by le x ys) ≡ suc (length ys)
unfolding insert_by
length-insert_by le x [] = refl
length-insert_by le x (y ∷ ys) = ground (arith, length-insert_by le x ys)

length-order_by :
    {A : Type 0} (le : A → A → Bool) (xs : List A) → length (order_by le xs) ≡ length xs
unfolding order_by
length-order_by le [] = refl
length-order_by le (x ∷ xs) =
    length-insert_by le x (order_by le xs) ∙ ap suc (length-order_by le xs)

-- the event for a link that is removed
abbrev pub removal : Link → Event
removal l = link_event l.id l.from_path l.to_path l.tag false

module _ (tag : Bytes) (opts : LinkOptions) where
  -- the links that the two statements are about
  abbrev tagged : Link → Bool
  tagged l =
      str_eq l.tag tag
      && (str_eq l.from_source opts.from_source
          && (str_eq l.to_source opts.to_source && link_is_active l))

  abbrev unlinked : ℕ → Db → Db
  unlinked now db = record db { links = update_where tagged (delete_link now) db.links }

  unlink_lem :
      (now : ℕ) (db : Db)
      → Links.unlink_by_tag tag opts now db
        ≡ (ok (length (list_links_by_tag db tag opts)), unlinked now db)
  unfolding Links.unlink_by_tag list_links_by_tag
  unlink_lem now db =
      rw (length-order_by by_ends (select tagged db.links), ← count_where-length tagged db.links)
        refl

  none_left : (now : ℕ) (db : Db) → list_links_by_tag (unlinked now db) tag opts ≡ []
  unfolding list_links_by_tag order_by
  none_left now db =
      rw
        (select-none tagged (update_where tagged (delete_link now) db.links)
          (exists_where-updated tagged (delete_link now) db.links (λ l k. ground arith)))
        refl

module _ {Files : Type 0} (s : Service) where
  fired :
      (links : List Link) (st : State Files)
      → s.has_context ≡ true
      → fire_removed s links st ≡ (ok tt, record st { events = st.events ++ map removal links })
  fired [] st h = rw (append-nil st.events) refl
  fired (l ∷ links) st h = rw h (
      fired links (record st { events = st.events ++ removal l ∷ [] }) h
      ∙ rw (append_assoc st.events (removal l ∷ []) (map removal links)) refl)

  -- In a service with extensions, the database and the count are the same in both orders. If the
  -- query comes first, each removed link has its event; if the deletion comes first, none has.
  pub unlink_by_tag-events :
      (tag : Bytes) (opts : LinkOptions) (now : ℕ) (st : State Files)
      → s.has_context ≡ true
      → ((unlink_by_tag s true tag opts now st).0 ≡ ok (length (list_links_by_tag st.db tag opts)))
        × ((unlink_by_tag s false tag opts now st).0
            ≡ ok (length (list_links_by_tag st.db tag opts)))
        × ((unlink_by_tag s true tag opts now st).1.db
            ≡ (unlink_by_tag s false tag opts now st).1.db)
        × ((unlink_by_tag s true tag opts now st).1.events
            ≡ st.events ++ map removal (list_links_by_tag st.db tag opts))
        × ((unlink_by_tag s false tag opts now st).1.events ≡ st.events)
  unfolding unlink_by_tag
  unlink_by_tag-events tag opts now st h = (
    rw first_eq refl,
    rw second_eq refl,
    rw (first_eq, second_eq) refl,
    rw first_eq refl,
    rw second_eq refl,
  )
    where
      first_eq : unlink_by_tag s true tag opts now st ≡ (
        ok (length (list_links_by_tag st.db tag opts)),
        record st {
          db = unlinked tag opts now st.db;
          events = st.events ++ map removal (list_links_by_tag st.db tag opts);
        },
      )
      first_eq =
          rw
            (
              unlink_lem tag opts now st.db,
              fired (list_links_by_tag st.db tag opts)
                  (record st { db = unlinked tag opts now st.db }) h,
            )
            refl

      second_eq : unlink_by_tag s false tag opts now st ≡ (
        ok (length (list_links_by_tag st.db tag opts)),
        record st { db = unlinked tag opts now st.db },
      )
      second_eq = rw (unlink_lem tag opts now st.db, none_left tag opts now st.db) refl
