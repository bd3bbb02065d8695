-- ===== src/Browse/Reader.antt =====
-- `mobileReader` of browse.go, which rewrites a page. The tree that `html.Parse` gives, the escaping
-- of `html.EscapeString` and the resolution of a reference are parameters. The builder is the list
-- of what was written to it, in order.
pub mod Markup
use Prim.Native.String.{len}
use telco_helm_charts.Common.{
  ℕ, ◌+◌, String, Bool, true, false, not, ◌&&◌, ◌||◌, Option, none, some, List, [], ◌∷◌, ◌++◌, ltb,
  if◌then◌else◌, ◌==◌, ◌<>◌,
}
use telco_helm_charts.Browse.Client.{Url, Checked, rejected, allowed, public_web_url}

-- The first of these is the key.
abbrev pub Attribute : Type 0
Attribute = String × String

-- `html.Node`: a text, an element, or a node of another type, which may have children.
mutual
  pub data Node : Type 0 where
    text_node : (content : String) → Node
    element : (content : String) → List Attribute → Nodes → Node
    other_node : Nodes → Node

  -- The children in order.
  pub data Nodes : Type 0 where
    no_nodes : Nodes
    first_node : Node → Nodes → Nodes

-- What is written at once: an escaped text, a tag that opens or closes, or an `<a>` for a URL.
pub data Token : Type 0 where
  text : String → Token
  opening : String → Token
  closing : String → Token
  link : String → Token

unfoldable pub is_among : String → List String → Bool
is_among name [] = false
is_among name (n ∷ ns) = name == n || is_among name ns

abbrev pub dropped_elements : List String
dropped_elements =
    "head" ∷ "script" ∷ "style" ∷ "noscript" ∷ "svg" ∷ "iframe" ∷ "form" ∷ "nav" ∷ "footer"
    ∷ "template" ∷ "object" ∷ "embed" ∷ []

abbrev pub kept_elements : List String
kept_elements =
    "h1" ∷ "h2" ∷ "h3" ∷ "h4" ∷ "h5" ∷ "h6" ∷ "p" ∷ "ul" ∷ "ol" ∷ "li" ∷ "blockquote" ∷ "pre"
    ∷ "code" ∷ "strong" ∷ "em" ∷ "b" ∷ "i" ∷ "br" ∷ "hr" ∷ "table" ∷ "thead" ∷ "tbody" ∷ "tr" ∷ "th"
    ∷ "td" ∷ "article" ∷ "section" ∷ "div" ∷ "figure" ∷ "figcaption" ∷ []

-- `tag != "" && tag != "br" && tag != "hr"`, then the tag is closed.
unfoldable pub finish : String → List Token
finish tag =
    if not (tag == "") && not (tag == "br") && not (tag == "hr") then closing tag ∷ [] else []

module _ (parse : String → Option Url) (resolve : String → Option String)
    (escape : String → String) where
  -- The text of a token.
  unfoldable pub written : Token → String
  written (text content) = escape content
  written (opening tag) = "<" <> tag <> ">"
  written (closing tag) = "</" <> tag <> ">"
  written (link u) = "<a href=\"#\" data-web-link=\"" <> escape u <> "\">"

  -- `out.Len()`
  unfoldable pub size : List Token → ℕ
  size [] = 0
  size (t ∷ ts) = len (written t) + size ts

  -- An attribute's value: `url.Parse`, `base.ResolveReference` and `String` are `resolve`.
  unfoldable pub open_link : Option String → List Token × String
  open_link none = ([], "")
  open_link (some u) = elim (public_web_url parse u) [
    | rejected err ↦ ([], "")
    | allowed v ↦ (link u ∷ [], "a")
  ]

  -- The loop over the attributes ends at the first href.
  unfoldable pub start_link : List Attribute → List Token × String
  start_link [] = ([], "")
  start_link ((key, val) ∷ rest) =
      if key == "href" then open_link (resolve val) else start_link rest

  -- What the switch writes for an element that is not dropped, and `tag`.
  unfoldable pub start : String → List Attribute → List Token × String
  start name attrs =
      if is_among name kept_elements
      then (opening name ∷ [], name)
      else if name == "a"
      then start_link attrs
      else ([], "")

  -- `walk`, from what was written before to what is written afterwards.
  unfoldable mutual
    pub walk : Node → List Token → List Token
    walk (text_node content) out = if ltb 128000 (size out) then out else out ++ text content ∷ []
    walk (element name attrs children) out =
        let begun = start name attrs in
        let inside = walk_all children (out ++ begun.0) in
        if ltb 128000 (size out)
        then out
        else if is_among name dropped_elements
        then out
        else inside ++ finish begun.1
    walk (other_node children) out =
        let inside = walk_all children out in if ltb 128000 (size out) then out else inside

    pub walk_all : Nodes → List Token → List Token
    walk_all no_nodes out = out
    walk_all (first_node n ns) out = walk_all ns (walk n out)

  -- The page is none if it cannot be parsed. The result is the text of what was written.
  unfoldable pub mobile_reader : Option Node → List Token
  unfolding walk
  mobile_reader none = []
  mobile_reader (some root) = walk root []

  -- The text that was written.
  unfoldable pub markup : List Token → String
  markup [] = ""
  markup (t ∷ ts) = written t <> markup ts
