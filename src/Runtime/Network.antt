-- ===== src/Runtime/Network.antt =====
-- rktlet/runtime/helpers.go: the address of a pod. net.IP is a list of bytes, as in Go.
pub mod Laws
use rktlet.Base.{
  ℕ, String, ◌<>◌, Bool, true, false, ◌&&◌, List, [], ◌∷◌, all, ◌==◌, nat_eq, text_eq,
  if◌then◌else◌, length,
}
use rktlet.Base.Decimal.{decimal}
use rktlet.Runtime.Types.{Ip, NetInfo}

-- net.IP.To4: a byte string of four bytes, or of sixteen that hold such (::ffff:a.b.c.d); else nil
to4 : Ip → Ip
to4 (a ∷ b ∷ c ∷ d ∷ []) = a ∷ b ∷ c ∷ d ∷ []
to4 (z ∷ y ∷ x ∷ w ∷ v ∷ u ∷ t ∷ s ∷ r ∷ q ∷ p ∷ o ∷ a ∷ b ∷ c ∷ d ∷ []) =
    if all (λ n. n == 0) (z ∷ y ∷ x ∷ w ∷ v ∷ u ∷ t ∷ s ∷ r ∷ q ∷ []) && p == 255 && o == 255
    then a ∷ b ∷ c ∷ d ∷ []
    else []
to4 _ = []

-- net.IP.String of what To4 gives
ip4_string : Ip → String
unfolding decimal
ip4_string (a ∷ b ∷ c ∷ d ∷ []) =
    decimal a <> "." <> decimal b <> "." <> decimal c <> "." <> decimal d
ip4_string _ = "<nil>"

-- network.IP.To4().String()
unfoldable pub address : NetInfo → String
unfolding to4 ip4_string
address network = ip4_string (to4 network.ip)

-- What the loop of getIP keeps after a network that it does not return at once.
next_ip : String → NetInfo → String
next_ip found_ip network =
    let preferred = if network.net_name == "default" then address network else found_ip in
    if preferred == "" then address network else preferred

get_ip_from : String → List NetInfo → String
get_ip_from found_ip [] = found_ip
get_ip_from found_ip (network ∷ networks) =
    let rest = get_ip_from (next_ip found_ip network) networks in
    if network.net_name == "rkt.kubernetes.io" then address network else rest

unfoldable pub get_ip : List NetInfo → String
unfolding get_ip_from next_ip address
get_ip networks = get_ip_from "" networks
