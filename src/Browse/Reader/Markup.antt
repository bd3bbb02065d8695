-- ===== src/Browse/Reader/Markup.antt =====
-- What the rewritten page consists of.
use telco_helm_charts.Common.{
  String, true, Option, none, some, List, [], ◌∷◌, ◌++◌, ◌≡◌, ◌≢◌, ◌⊎◌, inl, inr, refl, sym, subst,
  ◌∙◌, ap, arith, ◌==◌, eq_iff, ltb, Bool-cases, not, ◌&&◌,
}
use mathlib.Core.List.{append-nil, append_assoc}
use telco_helm_charts.Browse.Client.{Url, rejected, allowed, public_web_url}
use telco_helm_charts.Browse.Reader.{
  Attribute, Node, Nodes, text_node, element, other_node, no_nodes, first_node, Token, text,
  opening, closing, link, is_among, dropped_elements, kept_elements, finish, size, open_link,
  start_link, start, walk, walk_all,
}

module _ (parse : String → Option Url) where
  -- Well-nested markup of escaped texts, of elements that are kept, and of links that are allowed.
  pub data IsMarkup : List Token → Type 0 where
    empty : IsMarkup []
    escaped : (t : String) → IsMarkup (text t ∷ [])
    void : (name : String) → (name ≡ "br") ⊎ (name ≡ "hr") → IsMarkup (opening name ∷ [])
    enclosed :
        (name : String) {ts : List Token}
        → is_among name kept_elements ≡ true
        → IsMarkup ts
        → IsMarkup (opening name ∷ (ts ++ closing name ∷ []))
    anchored :
        (u : String) (v : Url) {ts : List Token}
        → public_web_url parse u ≡ allowed v
        → IsMarkup ts
        → IsMarkup (link u ∷ (ts ++ closing "a" ∷ []))
    both : {ts us : List Token} → IsMarkup ts → IsMarkup us → IsMarkup (ts ++ us)

  nothing_around : {ts : List Token} → IsMarkup ts → IsMarkup (ts ++ finish "")
  unfolding finish
  nothing_around {ts} h = subst IsMarkup (sym (append-nil ts)) h

  kept-ne : (name : String) → is_among name kept_elements ≡ true → name ≢ ""
  unfolding is_among
  kept-ne name h e = ground (arith, subst (λ n. is_among n kept_elements ≡ true) e h)

  finish-IsMarkup :
      (name : String) {ts : List Token}
      → is_among name kept_elements ≡ true
      → IsMarkup ts
      → IsMarkup (opening name ∷ (ts ++ finish name))
  unfolding finish
  finish-IsMarkup name {ts} kept h =
      elim (Bool-cases (not (name == "") && not (name == "br") && not (name == "hr"))) [
        | inl e ↦ rw e (enclosed name kept h)
        | inr e ↦
            let is_void : (name ≡ "br") ⊎ (name ≡ "hr") =
              ground
                (arith, eq_iff name "", eq_iff name "br", eq_iff name "hr", kept-ne name kept) in
            rw (e, append-nil ts) (both (void name is_void) h)
      ]

  abbrev Around : List Token → List Token × String → Type 0
  Around ts begun = IsMarkup (begun.0 ++ (ts ++ finish begun.1))

  module _ (resolve : String → Option String) (escape : String → String) where
    open_link-Around :
        (r : Option String) {ts : List Token}
        → IsMarkup ts
        → Around ts (open_link parse resolve escape r)
    unfolding open_link finish
    open_link-Around none h = nothing_around h
    open_link-Around (some u) {ts} h =
        elim (public_web_url parse u)
            as (λ c.
              public_web_url parse u ≡ c
              → Around ts (elim c [ rejected err ↦ ([], "") | allowed v ↦ (link u ∷ [], "a") ])) [
                | rejected err ↦ λ e. nothing_around h
                | allowed v ↦ λ e. anchored u v e h
              ]
          refl

    start_link-Around :
        (attrs : List Attribute) {ts : List Token}
        → IsMarkup ts
        → Around ts (start_link parse resolve escape attrs)
    unfolding start_link
    start_link-Around [] h = nothing_around h
    start_link-Around ((key, val) ∷ rest) h = elim (Bool-cases (key == "href")) [
      | inl e ↦ rw e (open_link-Around (resolve val) h)
      | inr e ↦ rw e (start_link-Around rest h)
    ]

    start-Around :
        (name : String) (attrs : List Attribute) {ts : List Token}
        → IsMarkup ts
        → Around ts (start parse resolve escape name attrs)
    unfolding start
    start-Around name attrs h = elim (Bool-cases (is_among name kept_elements)) [
      | inl e ↦ rw e (finish-IsMarkup name e h)
      | inr e ↦ rw e (elim (Bool-cases (name == "a")) [
        | inl f ↦ rw f (start_link-Around attrs h)
        | inr f ↦ rw f (nothing_around h)
      ])
    ]

    -- What was written is markup.
    record Adds (out all : List Token) : Type 0 where
      more : List Token
      markup : IsMarkup more
      total : all ≡ out ++ more

    Adds-none : (out : List Token) → Adds out out
    Adds-none out = record { more = []; markup = empty; total = sym (append-nil out) }

    Adds-around :
        (name : String) (attrs : List Attribute) (out : List Token) {all : List Token}
        → Adds (out ++ (start parse resolve escape name attrs).0) all
        → Adds out (all ++ finish (start parse resolve escape name attrs).1)
    Adds-around name attrs out a =
        let begun = start parse resolve escape name attrs in
        record {
          more = begun.0 ++ (a.more ++ finish begun.1);
          markup = start-Around name attrs a.markup;
          total =
              ap (λ l. l ++ finish begun.1) a.total
              ∙ append_assoc (out ++ begun.0) a.more (finish begun.1)
              ∙ append_assoc out begun.0 (a.more ++ finish begun.1);
        }

    mutual
      unfolding walk

      walk-Adds : (n : Node) (out : List Token) → Adds out (walk parse resolve escape n out)
      walk-Adds (text_node content) out =
          elim (Bool-cases (ltb 128000 (size parse resolve escape out))) [
            | inl e ↦ rw e (Adds-none out)
            | inr e ↦
                rw e (record { more = text content ∷ []; markup = escaped content; total = refl })
          ]
      walk-Adds (element name attrs children) out =
          let inside = walk_all-Adds children (out ++ (start parse resolve escape name attrs).0) in
          elim (Bool-cases (ltb 128000 (size parse resolve escape out))) [
            | inl e ↦ rw e (Adds-none out)
            | inr e ↦ rw e (elim (Bool-cases (is_among name dropped_elements)) [
              | inl f ↦ rw f (Adds-none out)
              | inr f ↦ rw f (Adds-around name attrs out inside)
            ])
          ]
      walk-Adds (other_node children) out =
          let inside = walk_all-Adds children out in
          elim (Bool-cases (ltb 128000 (size parse resolve escape out))) [
            | inl e ↦ rw e (Adds-none out)
            | inr e ↦ rw e inside
          ]

      walk_all-Adds :
          (ns : Nodes) (out : List Token) → Adds out (walk_all parse resolve escape ns out)
      walk_all-Adds no_nodes out = Adds-none out
      walk_all-Adds (first_node n ns) out =
          let first = walk-Adds n out in
          let rest = walk_all-Adds ns (walk parse resolve escape n out) in
          record {
            more = first.more ++ rest.more;
            markup = both first.markup rest.markup;
            total =
                rest.total
                ∙ ap (λ l. l ++ rest.more) first.total
                ∙ append_assoc out first.more rest.more;
          }
