-- ===== src/Proxy/Headers/Kept.antt =====
-- Removing hop-by-hop headers leaves a well-formed header.
use telco_helm_charts.Common.{List, [], ◌∷◌, arith}
use telco_helm_charts.Proxy.Headers.{
  Bytes, Header, delete, del, del_all, hop_headers, canonical, remove_hop_headers,
}
use telco_helm_charts.Proxy.Headers.Hop.{values-delete}
use telco_helm_charts.Proxy.Headers.Copy.{IsWellFormed}

delete-IsWellFormed : (key : Bytes) (h : Header) → IsWellFormed h → IsWellFormed (delete key h)
unfolding delete
delete-IsWellFormed key [] w = tt
delete-IsWellFormed key ((k, vs) ∷ h) (c, once, w) =
    ground (arith, delete-IsWellFormed key h w, values-delete key k h)

del_all-IsWellFormed :
    (names : List Bytes) (h : Header) → IsWellFormed h → IsWellFormed (del_all names h)
unfolding del_all
del_all-IsWellFormed [] h w = w
del_all-IsWellFormed (name ∷ names) h w =
    del_all-IsWellFormed names (del name h) (unfold del in delete-IsWellFormed (canonical name) h w)

pub remove_hop_headers-IsWellFormed :
    (h : Header) → IsWellFormed h → IsWellFormed (remove_hop_headers h)
unfolding remove_hop_headers
remove_hop_headers-IsWellFormed h w = del_all-IsWellFormed hop_headers h w
