-- ===== src/Tests/Browsing.antt =====
-- The browsing client on concrete addresses and URLs.
use Prim.Native.String.{len}
use telco_helm_charts.Common.{
  ℕ, String, true, false, Option, none, some, List, [], ◌∷◌, length, ◌≤◌, ◌≡◌, ◌↔◌, ◌+◌, refl,
  arith, All,
}
use telco_helm_charts.Browse.Address.{Addr, v4, v6, quad, public_ip}
use telco_helm_charts.Browse.Address.Special.{
  IsSpecial, IsSpecial6, public_ip_v4_iff, public_ip_v6_iff,
}
use telco_helm_charts.Browse.Client.{
  Url, allowed, public_web_url, Lookup, found, connection, all_public, attempt, dial_context,
  HostResult, follow,
}
use telco_helm_charts.Browse.Reader.{Node, text_node, element, no_nodes, first_node}
use telco_helm_charts.Browse.Outline.{reader}
use telco_helm_charts.Browse.Outline.Links.{IsLink, Distinct, most_hrefs, reader_links}
use telco_helm_charts.Browse.Handler.{Request, Fetched, fetched}
use telco_helm_charts.Tests.Fixtures.{phone, two_phones, start_state}
use telco_helm_charts.Exec.{State}
use telco_helm_charts.Browse.Client.Policy.{
  IsAllowed, IsFirst, public_web_url_iff, dial_context-IsFirst, follow_policy,
}

public_ip_v4_iff_example : (public_ip (v4 (quad 192 0 2 1)) ≡ true) ↔ (¬ IsSpecial (quad 192 0 2 1))
public_ip_v4_iff_example = public_ip_v4_iff (quad 192 0 2 1) (omega arith)

public_ip_v6_iff_example : (public_ip (v6 1) ≡ true) ↔ (¬ IsSpecial6 1)
public_ip_v6_iff_example = public_ip_v6_iff 1 (omega arith) (ground arith)

abbrev site : Url
site = record { scheme = "https"; hostname = "a.org"; port = ""; has_user = false }

abbrev parse : String → Option Url
parse raw = some site

public_web_url_iff_example :
    (public_web_url parse "https://a.org/" ≡ allowed site)
    ↔ ((len "https://a.org/" ≤ 2048) × (parse "https://a.org/" ≡ some site) × IsAllowed site)
public_web_url_iff_example = public_web_url_iff parse "https://a.org/" site

site-allowed : public_web_url parse "https://a.org/" ≡ allowed site
unfolding public_web_url
site-allowed = refl

follow_policy_example :
    (length (follow parse ("https://a.org/" ∷ []) ("https://a.org/x" ∷ [])) ≤ 5)
    × All
        (λ target. (v : Url) × (public_web_url parse target ≡ allowed v))
        (follow parse ("https://a.org/" ∷ []) ("https://a.org/x" ∷ []))
follow_policy_example = follow_policy parse "https://a.org/" ("https://a.org/x" ∷ []) site-allowed

abbrev web : Addr
web = v4 (quad 93 184 215 14)

abbrev split : String → HostResult
split address = (none, "a.org")

abbrev lookup : String → Lookup
lookup host = found (web ∷ [])

abbrev connects : Addr → Option String
connects a = none

dialled : (dial_context split lookup connects "a.org:443").result ≡ connection web
unfolding dial_context public_ip all_public attempt
dialled = refl

dial_context-IsFirst_example :
    (ips : List Addr) × (lookup "a.org" ≡ found ips)
    × IsFirst connects ips web
    × (public_ip web ≡ true)
dial_context-IsFirst_example = dial_context-IsFirst split lookup connects "a.org:443" web dialled

abbrev resolve : String → Option String
resolve reference = some reference

abbrev escape : String → String
escape content = content

-- <div><script>x</script><a href="https://a.org/">home</a></div>
abbrev page : Node
page = element "div" [] (
    first_node (element "script" [] (first_node (text_node "x") no_nodes)) (
      first_node
        (element "a" (("href", "https://a.org/") ∷ []) (first_node (text_node "home") no_nodes))
        no_nodes))

reader_links_example :
    All (IsLink parse) (reader parse resolve "x" (some page)).2
    × Distinct (reader parse resolve "x" (some page)).2
    × (length (reader parse resolve "x" (some page)).2 ≤ 29 + most_hrefs page)
reader_links_example = reader_links parse resolve "x" page

abbrev parse_html : String → Option Node
parse_html body = some page

abbrev resolve_from : String → String → Option String
resolve_from target reference = some reference

abbrev number : ℕ → String
number n = "0"

abbrev fetch : ℕ → (ip url : String) → ℕ → Fetched × ℕ
fetch i ip url w = (
  fetched (record {
    status = 200;
    target = site;
    target_text = "https://a.org/";
    content_type = "text/html";
    body = some "<div>";
  }),
  w,
)

abbrev parse_host : String → Option String
parse_host origin = some "ue.local"

abbrev asked : Request
asked = record {
  origin = "http://ue.local";
  host = "ue.local";
  body = some (record { phone = "1"; url = "https://a.org/" });
}

abbrev online_state : State ℕ
online_state = record start_state {
  dash = record two_phones {
    phones = record (phone "1" "+15551110001") { internet_ip = "10.45.0.2" } ∷ [];
  };
}
