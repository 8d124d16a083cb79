-- ===== src/L1Distribution/Headers.antt =====
-- The headers that `Initialize` makes (l1/L1DistributionHandler.cpp).
use mathlib.Core.List.{append-nil, append_assoc}
use na62_farm_lib_networking.Base.{
  ℕ, ◌+◌, ◌*◌, ◌<◌, ◌≡◌, ◌∙◌, refl, ap, sym, List, [], ◌∷◌, ◌++◌, Option, none, some, arith, length,
  length-take, take_all, u8, u16, htons,
}
use na62_farm_lib_networking.Ethernet.Frames.{MyAddress, generate_udp, fill_udp}
use na62_farm_lib_networking.Mrp.{MrpFrameHdr, new_mrp_frame_hdr}
use na62_farm_lib_networking.L1Distribution.{Resolver, request_hdr, push_all}
use na62_farm_lib_networking.L1Distribution.Sending.Frame.{HasMacs}

-- A header that goes from this machine to a MAC and an address, and is ready to be sent with.
pub record IsFor (me : MyAddress) (mac : List ℕ) (ip source_port destination_port : ℕ)
    (h : MrpFrameHdr) : Type 0 where
  pub macs : HasMacs h
  pub to_mac : h.udp.eth.ether_dhost ≡ mac
  pub from_mac : h.udp.eth.ether_shost ≡ me.my_mac
  pub to_ip : h.udp.ip.daddr ≡ ip
  pub from_ip : h.udp.ip.saddr ≡ me.my_ip
  pub answer_to : h.mrp_hdr.ip_address ≡ me.my_ip
  pub from_port : h.udp.udp.source ≡ htons (u16 source_port)
  pub to_port : h.udp.udp.dest ≡ htons (u16 destination_port)
  pub has_version : 0 < u8 (h.udp.ip.version * 16 + h.udp.ip.ihl)

pub request_hdr-IsFor :
    (me : MyAddress) (mac : List ℕ) (ip source_port destination_port : ℕ)
    → length me.my_mac ≡ 6
    → length mac ≡ 6
    → (h : MrpFrameHdr) × (request_hdr me (some mac) ip source_port destination_port ≡ some h)
      × IsFor me mac ip source_port destination_port h
unfolding request_hdr generate_udp
request_hdr-IsFor me mac ip source_port destination_port mm lm = (
  record {
    udp = fill_udp me new_mrp_frame_hdr.udp mac ip (u16 source_port) (u16 destination_port);
    mrp_hdr = record new_mrp_frame_hdr.mrp_hdr { ip_address = me.my_ip; reserved = 0 };
  },
  refl,
  record {
    macs = record {
      dhost = omega (arith, length-take {0} 6 mac);
      shost = omega (arith, length-take {0} 6 me.my_mac);
    };
    to_mac = take_all 6 mac (omega arith);
    from_mac = take_all 6 me.my_mac (omega arith);
    to_ip = refl;
    from_ip = refl;
    answer_to = refl;
    from_port = refl;
    to_port = refl;
    has_version = omega arith;
  },
)

-- The headers of a list, each for the MAC and the address of its item.
abbrev pub AllFor {ℓ} :
    {A : Type ℓ} → MyAddress → (A → List ℕ) → (A → ℕ) → ℕ → ℕ → List A → List MrpFrameHdr → Type 0
AllFor me mac ip s d [] [] = Unit {0}
AllFor me mac ip s d [] (h ∷ hs) = ⊥
AllFor me mac ip s d (x ∷ xs) [] = ⊥
AllFor me mac ip s d (x ∷ xs) (h ∷ hs) = IsFor me (mac x) (ip x) s d h × AllFor me mac ip s d xs hs

pub push_all-AllFor {ℓ} :
    {A : Type ℓ} (me : MyAddress) (mac : A → List ℕ) (ip : A → ℕ) (s d : ℕ)
    (f : A → Option MrpFrameHdr)
    → ((x : A) → (h : MrpFrameHdr) × (f x ≡ some h) × IsFor me (mac x) (ip x) s d h)
    → (xs : List A) (old : List MrpFrameHdr)
    → (new : List MrpFrameHdr) × (push_all f xs old ≡ some (old ++ new))
      × AllFor me mac ip s d xs new
unfolding push_all
push_all-AllFor me mac ip s d f each [] old = ([], ap some (sym (append-nil old)), tt)
push_all-AllFor me mac ip s d f each (x ∷ xs) old =
    let one = each x in
    let rest = push_all-AllFor me mac ip s d f each xs (old ++ one.0 ∷ []) in
    (
      one.0 ∷ rest.0,
      rw (one.1, push_all) (rest.1 ∙ ap some (append_assoc old (one.0 ∷ []) rest.0)),
      (one.2, rest.2),
    )

-- The address that `inet_pton` gives, or what was on the stack.
abbrev pub address_of : Resolver → ℕ × List ℕ → ℕ
address_of resolver (left_over, text) = elim (resolver.inet_pton text) [
  | none ↦ left_over
  | some a ↦ a
]
