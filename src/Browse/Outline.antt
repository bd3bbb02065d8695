-- ===== src/Browse/Outline.antt =====
-- `reader` of browse.go: the title, the text and the links of a page. The builder is the text that
-- was written to it, and `seen` is the list of the keys that were set.
pub mod Words
pub mod Links
use Prim.Native.String.{len}
use telco_helm_charts.Common.{
  ℕ, String, Bool, true, false, not, ◌&&◌, Option, none, some, List, [], ◌∷◌, ◌++◌, length, ltb,
  if◌then◌else◌, ◌==◌, ◌<>◌,
}
use telco_helm_charts.Browse.Client.{Url, Checked, rejected, allowed, public_web_url}
use telco_helm_charts.Browse.Reader.{
  Attribute, Node, Nodes, text_node, element, other_node, no_nodes, first_node, is_among,
}
use telco_helm_charts.Browse.Outline.Words.{squeeze, join, text_lines}

pub record WebLink : Type 0 where
  pub text : String
  pub url : String

-- What the closure `walk` writes to.
pub record Outline : Type 0 where
  pub text : String
  pub title : String
  pub links : List WebLink
  pub seen : List String

-- `contents`
unfoldable mutual
  pub contents : Node → String
  contents (text_node content) = content
  contents (element name attrs children) = squeeze (contents_all children)
  contents (other_node children) = squeeze (contents_all children)

  pub contents_all : Nodes → String
  contents_all no_nodes = ""
  contents_all (first_node n ns) = contents n <> " " <> contents_all ns

abbrev pub skipped_elements : List String
skipped_elements =
    "script" ∷ "style" ∷ "noscript" ∷ "svg" ∷ "iframe" ∷ "form" ∷ "nav" ∷ "footer" ∷ []

abbrev pub line_elements : List String
line_elements = "p" ∷ "div" ∷ "h1" ∷ "h2" ∷ "h3" ∷ "li" ∷ "br" ∷ "article" ∷ []

abbrev pub blank : Outline
blank = record { text = ""; title = ""; links = []; seen = [] }

abbrev pub add_text : String → Outline → Outline
add_text s o = record o { text = o.text <> s }

-- A link with a label, unless its URL was seen before.
unfoldable pub add_link : String → String → Outline → Outline
add_link label u o =
    if not (is_among u o.seen) && not (label == "")
    then record o { links = o.links ++ record { text = label; url = u } ∷ []; seen = u ∷ o.seen }
    else o

module _ (parse : String → Option Url) (resolve : String → Option String) where
  -- One href.
  unfoldable pub collect_href : String → Option String → Outline → Outline
  unfolding add_link
  collect_href label none o = o
  collect_href label (some u) o = elim (public_web_url parse u) [
    | rejected err ↦ o
    | allowed v ↦ add_link label u o
  ]

  -- The loop over the attributes of an `a` element.
  unfoldable pub collect : String → List Attribute → Outline → Outline
  unfolding collect_href
  collect label [] o = o
  collect label ((key, val) ∷ rest) o =
      collect label rest (if key == "href" then collect_href label (resolve val) o else o)

  -- What is done at an element before its children.
  unfoldable pub enter : Node → String → List Attribute → Outline → Outline
  enter n name attrs o =
      let linked =
        if name == "a" && ltb (length o.links) 30 then collect (contents n) attrs o else o in
      if is_among name line_elements then add_text "\n" linked else linked

  -- The text of a text node.
  unfoldable pub add_words : String → Outline → Outline
  add_words content o =
      let clean = squeeze content in if not (clean == "") then add_text (clean <> " ") o else o

  -- `walk`
  unfoldable mutual
    pub outline : Node → Outline → Outline
    outline (text_node content) o = if ltb 32000 (len o.text) then o else add_words content o
    outline (element name attrs children) o =
        let n = element name attrs children in
        let inside = outline_all children (enter n name attrs o) in
        if ltb 32000 (len o.text)
        then o
        else if is_among name skipped_elements
        then o
        else if name == "title"
        then record o { title = contents n }
        else inside
    outline (other_node children) o =
        let inside = outline_all children o in if ltb 32000 (len o.text) then o else inside

    pub outline_all : Nodes → Outline → Outline
    outline_all no_nodes o = o
    outline_all (first_node n ns) o = outline_all ns (outline n o)

  -- `reader`: the title, the text and the links. A page that cannot be parsed is its own text.
  unfoldable pub reader : String → Option Node → String × String × List WebLink
  unfolding outline
  reader body none = ("", body, [])
  reader body (some root) =
      let o = outline root blank in (o.title, join "\n\n" (text_lines o.text), o.links)
