-- ===== src/Browse/Outline/Links.antt =====
-- The links that `reader` lists.
use Prim.Native.String.{len}
use telco_helm_charts.Common.{
  ℕ, suc, ◌+◌, ◌≤◌, String, Bool, true, false, not, ◌&&◌, Option, none, some, List, [], ◌∷◌, ◌++◌,
  ◌≡◌, ◌≢◌, inl, inr, refl, arith, length, length-append, ltb, All, All-append, All-imp, subst, ◌∙◌,
  Bool-cases, if◌then◌else◌, ◌==◌, eq_iff, eq_refl,
}
use telco_helm_charts.Browse.Client.{Url, Checked, rejected, allowed, public_web_url}
use telco_helm_charts.Browse.Reader.{
  Attribute, Node, Nodes, text_node, element, other_node, no_nodes, first_node, is_among,
}
use telco_helm_charts.Browse.Outline.{
  WebLink, Outline, contents, skipped_elements, line_elements, add_text, add_link, collect_href,
  collect, enter, add_words, outline, outline_all, blank, reader,
}

-- No two links have the same URL.
abbrev pub Distinct : List WebLink → Type 0
Distinct [] = Unit
Distinct (l ∷ ls) = All (λ (m : WebLink). l.url ≢ m.url) ls × Distinct ls

-- The number of href attributes.
pub hrefs : List Attribute → ℕ
hrefs [] = 0
hrefs ((key, val) ∷ rest) = if key == "href" then suc (hrefs rest) else hrefs rest

pub larger : ℕ → ℕ → ℕ
larger a b = if ltb a b then b else a

-- The largest number of href attributes on one element of the page, and 1 at least.
mutual
  pub most_hrefs : Node → ℕ
  most_hrefs (text_node content) = 1
  most_hrefs (element name attrs children) = larger (hrefs attrs) (most_hrefs_all children)
  most_hrefs (other_node children) = most_hrefs_all children

  pub most_hrefs_all : Nodes → ℕ
  most_hrefs_all no_nodes = 1
  most_hrefs_all (first_node n ns) = larger (most_hrefs n) (most_hrefs_all ns)

larger_le : (a b k : ℕ) → larger a b ≤ k → (a ≤ k) × (b ≤ k)
unfolding larger
larger_le a b k h = ground arith

module _ (parse : String → Option Url) where
  -- What may be listed: a link with a label, to a URL that is allowed.
  pub record IsLink (l : WebLink) : Type 0 where
    pub named : l.text ≢ ""
    pub target : Url
    pub checked : public_web_url parse l.url ≡ allowed target

  pub record IsTidy (o : Outline) : Type 0 where
    pub links : All IsLink o.links
    pub known : All (λ (l : WebLink). is_among l.url o.seen ≡ true) o.links
    pub distinct : Distinct o.links

  Distinct-append :
      (u : String) (seen : List String) (l : WebLink) (ls : List WebLink)
      → l.url ≡ u
      → is_among u seen ≡ false
      → All (λ (m : WebLink). is_among m.url seen ≡ true) ls
      → Distinct ls
      → Distinct (ls ++ l ∷ [])
  Distinct-append u seen l [] e new known h = (tt, tt)
  Distinct-append u seen l (m ∷ ls) e new known h = (
    All-append _ ls (l ∷ []) h.0 (absent known.0, tt),
    Distinct-append u seen l ls e new known.1 h.1,
  )
    where
      absent : is_among m.url seen ≡ true → m.url ≢ l.url
      absent there same = cc (new, subst (λ x. is_among x seen ≡ true) (same ∙ e) there)

  is_among-cons :
      (u x : String) (seen : List String) → is_among x seen ≡ true → is_among x (u ∷ seen) ≡ true
  unfolding is_among
  is_among-cons u x seen h = ground arith

  is_among_head : (u : String) (seen : List String) → is_among u (u ∷ seen) ≡ true
  unfolding is_among
  is_among_head u seen = rw (eq_refl u)

  add_link-IsTidy :
      (label u : String) (v : Url) (o : Outline)
      → public_web_url parse u ≡ allowed v
      → IsTidy o
      → IsTidy (add_link label u o)
  unfolding add_link
  add_link-IsTidy label u v o e t =
      elim (Bool-cases (not (is_among u o.seen) && not (label == ""))) [
        | inr h ↦ rw h t
        | inl h ↦
            let new : is_among u o.seen ≡ false = ground arith in
            let named : label ≢ "" = ground (arith, eq_iff label "") in
            let l : WebLink = record { text = label; url = u } in
            rw h (record {
              links =
                  All-append IsLink o.links (l ∷ []) t.links
                    (record { named = named; target = v; checked = e }, tt);
              known =
                  All-append _ o.links (l ∷ [])
                    (All-imp (λ (m : WebLink) k. is_among-cons u m.url o.seen k) o.links t.known)
                    (is_among_head u o.seen, tt);
              distinct = Distinct-append u o.seen l o.links refl new t.known t.distinct;
            })
      ]

  length-add_link :
      (label u : String) (o : Outline) → length (add_link label u o).links ≤ length o.links + 1
  unfolding add_link
  length-add_link label u o =
      ground (arith, length-append o.links (record { text = label; url = u } ∷ []))

  -- The invariant of the walk, with a bound on the number of links.
  record Keeps (most : ℕ) (o : Outline) : Type 0 where
    tidy : IsTidy o
    few : length o.links ≤ most

  Keeps-le : {a b : ℕ} {o : Outline} → a ≤ b → Keeps a o → Keeps b o
  Keeps-le h k = record { tidy = k.tidy; few = omega (arith, k.few) }

  module _ (resolve : String → Option String) where
    collect_href-Keeps :
        (most : ℕ) (label : String) (r : Option String) (o : Outline)
        → Keeps most o
        → Keeps (most + 1) (collect_href parse resolve label r o)
    unfolding collect_href
    collect_href-Keeps most label none o k = Keeps-le (omega arith) k
    collect_href-Keeps most label (some u) o k = checked (public_web_url parse u) refl
      where
        checked :
            (c : Checked)
            → public_web_url parse u ≡ c
            → Keeps (most + 1) (elim c [ rejected err ↦ o | allowed v ↦ add_link label u o ])
        checked (rejected err) e = Keeps-le (omega arith) k
        checked (allowed v) e = record {
          tidy = add_link-IsTidy label u v o e k.tidy;
          few = omega (arith, length-add_link label u o, k.few);
        }

    collect-Keeps :
        (most : ℕ) (label : String) (attrs : List Attribute) (o : Outline)
        → Keeps most o
        → Keeps (most + hrefs attrs) (collect parse resolve label attrs o)
    unfolding collect hrefs
    collect-Keeps most label [] o k = Keeps-le (omega arith) k
    collect-Keeps most label ((key, val) ∷ rest) o k = elim (Bool-cases (key == "href")) [
      | inl e ↦ rw e (
          Keeps-le (omega arith) (
            collect-Keeps (most + 1) label rest _
              (collect_href-Keeps most label (resolve val) o k)))
      | inr e ↦ rw e (collect-Keeps most label rest o k)
    ]

    linked-Keeps :
        (most : ℕ) (n : Node) (name : String) (attrs : List Attribute) (o : Outline)
        → hrefs attrs ≤ most
        → Keeps (29 + most) o
        → Keeps (29 + most) (
            if name == "a" && ltb (length o.links) 30
            then collect parse resolve (contents n) attrs o
            else o)
    linked-Keeps most n name attrs o h k =
        elim (Bool-cases (name == "a" && ltb (length o.links) 30)) [
          | inr e ↦ rw e k
          | inl e ↦
              let room : length o.links ≤ 29 = ground arith in
              let now : Keeps 29 o = record { tidy = k.tidy; few = room } in
              rw e (Keeps-le (omega arith) (collect-Keeps 29 (contents n) attrs o now))
        ]

    add_text-Keeps :
        (most : ℕ) (s : String) (o : Outline) → Keeps most o → Keeps most (add_text s o)
    add_text-Keeps most s o k =
        let tidy : IsTidy (add_text s o) = record {
          links = k.tidy.links;
          known = k.tidy.known;
          distinct = k.tidy.distinct;
        } in
        record { tidy = tidy; few = k.few }

    add_title-Keeps :
        (most : ℕ) (s : String) (o : Outline) → Keeps most o → Keeps most (record o { title = s })
    add_title-Keeps most s o k =
        let tidy : IsTidy (record o { title = s }) = record {
          links = k.tidy.links;
          known = k.tidy.known;
          distinct = k.tidy.distinct;
        } in
        record { tidy = tidy; few = k.few }

    if-Keeps :
        {most : ℕ} (b : Bool) {o p : Outline}
        → Keeps most o
        → Keeps most p
        → Keeps most (if b then o else p)
    if-Keeps true h k = h
    if-Keeps false h k = k

    enter-Keeps :
        (most : ℕ) (n : Node) (name : String) (attrs : List Attribute) (o : Outline)
        → hrefs attrs ≤ most
        → Keeps (29 + most) o
        → Keeps (29 + most) (enter parse resolve n name attrs o)
    unfolding enter
    enter-Keeps most n name attrs o h k =
        let linked = linked-Keeps most n name attrs o h k in
        if-Keeps (is_among name line_elements) (add_text-Keeps _ "\n" _ linked) linked

    add_words-Keeps :
        (most : ℕ) (content : String) (o : Outline)
        → Keeps most o
        → Keeps most (add_words parse resolve content o)
    unfolding add_words
    add_words-Keeps most content o k = if-Keeps _ (add_text-Keeps most _ o k) k

    mutual
      unfolding outline most_hrefs

      outline-Keeps :
          (most : ℕ) (n : Node) (o : Outline)
          → most_hrefs n ≤ most
          → Keeps (29 + most) o
          → Keeps (29 + most) (outline parse resolve n o)
      outline-Keeps most (text_node content) o h k = if-Keeps _ k (add_words-Keeps _ content o k)
      outline-Keeps most (element name attrs children) o h k =
          let n = element name attrs children in
          let (here, below) = larger_le (hrefs attrs) (most_hrefs_all children) most h in
          let titled = add_title-Keeps (29 + most) (contents n) o k in
          let inside =
            outline_all-Keeps most children _ below (enter-Keeps most n name attrs o here k) in
          if-Keeps (ltb 32000 (len o.text)) k
            (if-Keeps (is_among name skipped_elements) k (if-Keeps (name == "title") titled inside))
      outline-Keeps most (other_node children) o h k =
          if-Keeps _ k (outline_all-Keeps most children o h k)

      outline_all-Keeps :
          (most : ℕ) (ns : Nodes) (o : Outline)
          → most_hrefs_all ns ≤ most
          → Keeps (29 + most) o
          → Keeps (29 + most) (outline_all parse resolve ns o)
      outline_all-Keeps most no_nodes o h k = k
      outline_all-Keeps most (first_node n ns) o h k =
          let (first, others) = larger_le (most_hrefs n) (most_hrefs_all ns) most h in
          outline_all-Keeps most ns _ others (outline-Keeps most n o first k)

    -- Whatever page is read, each link that is listed has a label and goes to a URL that is allowed,
    -- and no two go to the same URL. There are at most 30 of them if no element has two href
    -- attributes, and at most 29 more than an element has otherwise.
    pub reader_links :
        (body : String) (root : Node)
        → All IsLink (reader parse resolve body (some root)).2
          × Distinct (reader parse resolve body (some root)).2
          × (length (reader parse resolve body (some root)).2 ≤ 29 + most_hrefs root)
    unfolding reader
    reader_links body root =
        let start : Keeps (29 + most_hrefs root) blank = record {
          tidy = record { links = tt; known = tt; distinct = tt };
          few = omega arith;
        } in
        let k = outline-Keeps (most_hrefs root) root blank (omega arith) start in
        (k.tidy.links, k.tidy.distinct, k.few)
