-- ===== src/Pagelink/Sync.antt =====
-- internal/pagelink/store.go: what `SyncLinks` makes of a page's links.
use talyvor_docs.Prelude.{
  String, ◌≡◌, refl, Bool, false, not, ◌&&◌, ◌||◌, Option, List, [], ◌∷◌, ◌++◌, arith, ◌==◌,
  Bool-cases, Option-cases, inl, inr, any, eq_iff, eq_refl, select as filter, ◌∙◌, ap,
}
use talyvor_docs.Postgres.Tables.{among, distinct}
use talyvor_docs.Postgres.Run.{Reply, ok, statement, select, write}
use talyvor_docs.Postgres.Run.Keep.{
  Keeps, keep_pure, keep_refuse, keep_if, keep_bind, keep_write, keep_select, kept,
}
use talyvor_docs.Doc.{Value, Items, Fields}
use talyvor_docs.Pagelink.{
  PageLink, Tables, LinkError, ids_required, is_link, insert_link, is_embed, embed_ids, upsert,
  delete_typed, walk, walk_items, walk_content, own_embed, parse_embeds, embed_link, add_each,
  remove_each, sync_links,
}

-- Whether the page has an embed link to the issue.
abbrev pub has_embed : String → String → List PageLink → Bool
has_embed page issue links = any (is_link page issue "embed") links

among-distinct :
    (seen xs : List String) (x : String)
    → among (distinct seen xs) x ≡ (among xs x && not (among seen x))
unfolding distinct among
among-distinct seen [] x = refl
among-distinct seen (y ∷ xs) x = elim (Bool-cases (among seen y)) [
  | inl old ↦
      rw old ground
        (arith, among-distinct seen xs x, eq_iff y x, old, λ (p : y ≡ x). ap (among seen) p)
  | inr new ↦
      rw new ground
        (arith, among-distinct (y ∷ seen) xs x, eq_iff y x, new, λ (p : y ≡ x). ap (among seen) p)
]

has_embed-embed_ids :
    (page issue : String) (links : List PageLink)
    → among (embed_ids page links) issue ≡ has_embed page issue links
unfolding embed_ids among any
has_embed-embed_ids page issue [] = refl
has_embed-embed_ids page issue (l ∷ links) = ground (arith, has_embed-embed_ids page issue links)

module _ (page workspace by : String) where
  has_embed-insert_link :
      (x issue : String) (t : Tables)
      → has_embed page issue (insert_link (embed_link page workspace by x) t).links
        ≡ (has_embed page issue t.links || (x == issue))
  unfolding any
  has_embed-insert_link x issue t = elim (Bool-cases (has_embed page x t.links)) [
    | inl there ↦
        rw there ground
          (arith, eq_iff x issue, there, λ (p : x ≡ issue). ap (λ i. has_embed page i t.links) p)
    | inr new ↦ rw (new, eq_refl page) (ground (arith, eq_iff x issue))
  ]

  has_embed-delete :
      (x issue : String) (links : List PageLink)
      → has_embed page issue (filter (λ l. not (is_link page x "embed" l)) links)
        ≡ (has_embed page issue links && not (x == issue))
  unfolding any filter
  has_embed-delete x issue [] = refl
  has_embed-delete x issue (l ∷ links) = ground (
    arith,
    has_embed-delete x issue links,
    eq_iff x issue,
    eq_iff l.issue_id x,
    eq_iff l.issue_id issue,
  )

  upsert-insert_link :
      (x : String) (t : Tables)
      → (page == "") ≡ false
      → (x == "") ≡ false
      → upsert (embed_link page workspace by x) t []
        ≡ (ok tt, insert_link (embed_link page workspace by x) t, [])
  unfolding upsert statement
  upsert-insert_link x t p e = rw (p, e) refl

  -- What a loop without a failure leaves.
  abbrev pub Leaves : Reply LinkError (Unit {0}) × Tables × List Bool → (String → Bool) → Type 0
  Leaves out holds =
      (out.0 ≡ ok tt)
      × (out.2 ≡ [])
      × ((issue : String) → has_embed page issue out.1.links ≡ holds issue)

  add_each-Leaves :
      (existing current : List String) (t : Tables)
      → (page == "") ≡ false
      → among current "" ≡ false
      → Leaves (add_each page workspace by existing current t []) (λ issue.
        has_embed page issue t.links || (among current issue && not (among existing issue)))
  unfolding add_each among
  add_each-Leaves existing [] t p e = (refl, refl, λ issue. ground arith)
  add_each-Leaves existing (x ∷ current) t p e = elim (Bool-cases (x == "")) [
    | inl empty ↦ absurd (ground (arith, e, empty))
    | inr named ↦ elim (Bool-cases (among existing x)) [
      | inl there ↦
          let (answer, calm, holds) =
            add_each-Leaves existing current t p (ground (arith, e, named)) in
          rw there (
            answer,
            calm,
            λ issue. ground (
              arith,
              holds issue,
              there,
              eq_iff x issue,
              λ (q : x ≡ issue). ap (among existing) q,
            ),
          )
      | inr absent ↦
          let t' : Tables = insert_link (embed_link page workspace by x) t in
          let (answer, calm, holds) =
            add_each-Leaves existing current t' p (ground (arith, e, named)) in
          rw (absent, upsert-insert_link x t p named)
            (
              answer,
              calm,
              λ issue. ground (
                arith,
                holds issue,
                has_embed-insert_link x issue t,
                absent,
                eq_iff x issue,
                λ (q : x ≡ issue). ap (among existing) q,
              ),
            )
    ]
  ]

  remove_each-Leaves :
      (current existing : List String) (t : Tables)
      → Leaves (remove_each page current existing t []) (λ issue.
        has_embed page issue t.links && (among current issue || not (among existing issue)))
  unfolding remove_each among delete_typed statement write
  remove_each-Leaves current [] t = (refl, refl, λ issue. ground arith)
  remove_each-Leaves current (x ∷ existing) t = elim (Bool-cases (among current x)) [
    | inl there ↦
        let (answer, calm, holds) = remove_each-Leaves current existing t in
        rw there (
          answer,
          calm,
          λ issue.
              ground (
                arith,
                holds issue,
                there,
                eq_iff x issue,
                λ (q : x ≡ issue). ap (among current) q,
              ),
        )
    | inr absent ↦
        let t' : Tables = record t {
          links = filter (λ l. not (is_link page x "embed" l)) t.links;
        } in
        let (answer, calm, holds) = remove_each-Leaves current existing t' in
        rw absent (
          answer,
          calm,
          λ issue. ground (
            arith,
            holds issue,
            has_embed-delete x issue t.links,
            absent,
            eq_iff x issue,
            λ (q : x ≡ issue). ap (among current) q,
          ),
        )
  ]

-- The links of other pages and of other types.
module _ (page : String) (before : List PageLink) where
  abbrev others : List PageLink → List PageLink
  others links = filter (λ l. not (is_embed page l)) links

  abbrev pub Same : Tables → Type 0
  Same t = others t.links ≡ before

  others-delete :
      (x : String) (links : List PageLink)
      → others (filter (λ l. not (is_link page x "embed" l)) links) ≡ others links
  unfolding filter
  others-delete x [] = refl
  others-delete x (l ∷ links) = ground (arith, others-delete x links)

  insert_link-Same :
      (workspace by x : String) (t : Tables)
      → Same t
      → Same (insert_link (embed_link page workspace by x) t)
  unfolding filter
  insert_link-Same workspace by x t same = elim (Bool-cases (has_embed page x t.links)) [
    | inl there ↦ rw there same
    | inr new ↦ rw (new, eq_refl page) same
  ]

  add_each-Same :
      (workspace by : String) (existing current : List String)
      → Keeps Same (add_each page workspace by existing current)
  unfolding add_each upsert
  add_each-Same workspace by existing [] = keep_pure LinkError Same tt
  add_each-Same workspace by existing (x ∷ current) =
      keep_if LinkError Same (among existing x) _ _ (add_each-Same workspace by existing current) (
        keep_bind LinkError Same _ _
          (keep_if LinkError Same (page == "" || x == "") _ _
            (keep_refuse LinkError Same (Unit {0}) ids_required)
            (keep_write LinkError Same _ (insert_link-Same workspace by x)))
          (λ _. add_each-Same workspace by existing current))

  remove_each-Same :
      (current existing : List String) → Keeps Same (remove_each page current existing)
  unfolding remove_each delete_typed
  remove_each-Same current [] = keep_pure LinkError Same tt
  remove_each-Same current (x ∷ existing) =
      keep_if LinkError Same (among current x) _ _ (remove_each-Same current existing) (
        keep_bind LinkError Same _ _
          (keep_write LinkError Same _ (λ t same. others-delete x t.links ∙ same))
          (λ _. remove_each-Same current existing))

among-append : (xs ys : List String) (x : String) → among (xs ++ ys) x ≡ (among xs x || among ys x)
unfolding among
among-append [] ys x = refl
among-append (y ∷ xs) ys x = ground (arith, among-append xs ys x)

among-own_embed : (fs : Fields) → among (own_embed fs) "" ≡ false
unfolding among
among-own_embed fs = ground arith

mutual
  unfolding walk among

  walk_named : (v : Value) → among (walk v) "" ≡ false
  walk_named Value.null = refl
  walk_named (Value.flag b) = refl
  walk_named (Value.number n) = refl
  walk_named (Value.text s) = refl
  walk_named (Value.list xs) = walk_items_named xs
  walk_named (Value.object fs) = ground (
    arith,
    among-append (own_embed fs) (walk_content fs) "",
    among-own_embed fs,
    walk_content_named fs,
  )

  walk_items_named : (xs : Items) → among (walk_items xs) "" ≡ false
  walk_items_named Items.nil = refl
  walk_items_named (Items.cons x xs) =
      ground (arith, among-append (walk x) (walk_items xs) "", walk_named x, walk_items_named xs)

  walk_content_named : (fs : Fields) → among (walk_content fs) "" ≡ false
  walk_content_named Fields.end = refl
  walk_content_named (Fields.field k v fs) = ground (arith, walk_named v, walk_content_named fs)

module _ (decode : String → Option Value) where
  parse_embeds_named : (content : String) → among (parse_embeds decode content) "" ≡ false
  unfolding parse_embeds among
  parse_embeds_named content = elim (Option-cases (decode content)) [
    | inl bad ↦ ground (arith, bad)
    | inr (doc, good) ↦ ground (arith, good, among-distinct [] (walk doc) "", walk_named doc)
  ]

  module _ (arrange : List String → List String) (page workspace by : String) where
    -- A `SyncLinks` of which no statement fails gives the page exactly the embed links of the issues that its content
    -- embeds, whatever links it had: also those that an earlier run, broken off by a failure, has left. Go may visit
    -- the keys of a map in any order.
    pub sync_links_embeds :
        (content : String) (t : Tables)
        → ((xs : List String) (x : String) → among (arrange xs) x ≡ among xs x)
        → (page == "") ≡ false
        → (let out = sync_links decode arrange page workspace content by t [] in
            (out.0 ≡ ok tt)
            × ((issue : String)
                → has_embed page issue out.1.links ≡ among (parse_embeds decode content) issue))
    unfolding sync_links select statement among
    sync_links_embeds content t arranged p =
        let rows : List String = embed_ids page t.links in
        let existing : List String = distinct [] rows in
        let current : List String = parse_embeds decode content in
        let (added, calm, more) =
          add_each-Leaves page workspace by existing (arrange current) t p
            (rw (arranged current "") (parse_embeds_named content)) in
        let t' : Tables = (add_each page workspace by existing (arrange current) t []).1 in
        let (removed, calm', fewer) =
          remove_each-Leaves page workspace by current (arrange existing) t' in
        rw (added, calm)
          (
            removed,
            λ issue. ground (
              arith,
              fewer issue,
              more issue,
              arranged current issue,
              arranged existing issue,
              among-distinct [] rows issue,
              has_embed-embed_ids page issue t.links,
            ),
          )

    -- Whatever statements fail, `SyncLinks` changes no link of another page and no link of another type than "embed".
    pub sync_links_others :
        (content : String) (t : Tables) (down : List Bool)
        → filter
            (λ l. not (is_embed page l))
            (sync_links decode arrange page workspace content by t down).1.links
          ≡ filter (λ l. not (is_embed page l)) t.links
    unfolding sync_links
    sync_links_others content t down =
        let Kept : Tables → Type 0 = Same page (filter (λ l. not (is_embed page l)) t.links) in
        let before : List PageLink = filter (λ l. not (is_embed page l)) t.links in
        let current : List String = parse_embeds decode content in
        kept Kept (sync_links decode arrange page workspace content by)
          (keep_bind LinkError Kept _ _ (keep_select LinkError Kept _) λ rows.
            keep_bind LinkError Kept _ _
              (add_each-Same page before workspace by (distinct [] rows) (arrange current))
              λ _. remove_each-Same page before current (arrange (distinct [] rows)))
          t down refl
