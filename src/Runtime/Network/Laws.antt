-- ===== src/Runtime/Network/Laws.antt =====
-- The network whose address a pod has: the first "rkt.kubernetes.io", else the last "default",
-- else the first of all.
use text.Mathlib.TextLemmas.{append-eq-nil_iff, cons≢nil}
use rktlet.Base.{
  ◌≡◌, refl, ◌≢◌, String, Option, none, some, List, [], ◌∷◌, ◌==◌, text_eq, if◌then◌else◌, arith,
  eq_iff, Bool-cases, inl, inr, ◌∙◌,
}
use rktlet.Base.Decimal.{decimal-ne-nil}
use rktlet.Runtime.Types.{Ip, NetInfo}
use rktlet.Runtime.Network.{to4, ip4_string, address, next_ip, get_ip_from, get_ip}

ip4_string-ne-nil : (ip : Ip) → ip4_string ip ≢ ""
unfolding ip4_string
ip4_string-ne-nil (a ∷ b ∷ c ∷ d ∷ []) e = decimal-ne-nil a ((append-eq-nil_iff.0 e).0)
ip4_string-ne-nil _ e = cons≢nil e

pub address-ne-nil : (network : NetInfo) → address network ≢ ""
unfolding address
address-ne-nil network = ip4_string-ne-nil (to4 network.ip)

-- The first network of a name, and the last.
abbrev pub first_named : String → List NetInfo → Option NetInfo
first_named name [] = none
first_named name (network ∷ networks) =
    if network.net_name == name then some network else first_named name networks

abbrev pub last_named : String → List NetInfo → Option NetInfo
last_named name [] = none
last_named name (network ∷ networks) = elim (last_named name networks) [
  | some later ↦ some later
  | none ↦ if network.net_name == name then some network else none
]

abbrev pub address_or : String → Option NetInfo → String
address_or found none = found
address_or found (some network) = address network

next_ip_lem :
    (found : String) (network : NetInfo)
    → found ≢ ""
    → next_ip found network ≡ (if network.net_name == "default" then address network else found)
unfolding next_ip
next_ip_lem found network h =
    ground (arith, eq_iff found "", eq_iff (address network) "", address-ne-nil network)

next_ip-nil : (network : NetInfo) → next_ip "" network ≡ address network
unfolding next_ip
next_ip-nil network = elim (Bool-cases (network.net_name == "default")) [
  | inl named ↦ rw named (ground arith)
  | inr other ↦ rw other refl
]

get_ip_from_lem :
    (found : String) (networks : List NetInfo)
    → found ≢ ""
    → get_ip_from found networks
      ≡ address_or
          (address_or found (last_named "default" networks))
          (first_named "rkt.kubernetes.io" networks)
unfolding get_ip_from
get_ip_from_lem found [] h = refl
get_ip_from_lem found (network ∷ networks) h =
    rw (next_ip_lem found network h) (elim (Bool-cases (network.net_name == "default")) [
      | inl named ↦
          rw (named, get_ip_from_lem (address network) networks (address-ne-nil network))
            (ground arith)
      | inr other ↦ rw (other, get_ip_from_lem found networks h) (ground arith)
    ])

get_ip-cons :
    (network : NetInfo) (networks : List NetInfo)
    → get_ip (network ∷ networks) ≡ (
        if network.net_name == "rkt.kubernetes.io"
        then address network
        else get_ip_from (address network) networks)
get_ip-cons network networks = unfold get_ip get_ip_from in rw (next_ip-nil network) refl

-- The address of a pod is that of its first network "rkt.kubernetes.io", or else of its last
-- network "default", or else of its first network.
pub get_ip_lem :
    (network : NetInfo) (networks : List NetInfo)
    → get_ip (network ∷ networks)
      ≡ address_or
          (address_or (address network) (last_named "default" (network ∷ networks)))
          (first_named "rkt.kubernetes.io" (network ∷ networks))
get_ip_lem network networks =
    get_ip-cons network networks
    ∙ rw (get_ip_from_lem (address network) networks (address-ne-nil network)) (ground arith)
