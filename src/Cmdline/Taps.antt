-- ===== src/Cmdline/Taps.antt =====
-- The names of the host's tap interfaces.
use andler.Base.{
  ℕ, zero, suc, ◌+◌, ◌%◌, ◌≤◌, ◌<◌, ◌≡◌, ◌≢◌, refl, ap, List, [], ◌∷◌, ◌++◌, Text, codes, length,
  length-append, take, arith, Bool-cases, inl, inr, ltb, ◌/◌, lt→ltb,
}
use andler.Decimal.{to_text, to_text_fuel}
use andler.Decimal.RoundTrip.{parse_uint-to_text}
use andler.Cmdline.Nics.{primary_net_bridge_tap_iface, extra_net_bridge_tap_iface}

length-take_le : {A : Type 0} (n : ℕ) (xs : List A) → length (take n xs) ≤ n
length-take_le zero xs = omega arith
length-take_le (suc n) [] = omega arith
length-take_le (suc n) (x ∷ xs) = omega (arith, length-take_le n xs)

pub append_cancel_left : (s t u : Text) → s ++ t ≡ s ++ u → t ≡ u
append_cancel_left [] t u e = e
append_cancel_left (c ∷ s) t u e = append_cancel_left s t u cc

length-one_digit : (fuel n : ℕ) → n < 10 → 0 < fuel → length (to_text_fuel fuel n) ≡ 1
unfolding to_text_fuel
length-one_digit zero n h pos = omega (arith, pos)
length-one_digit (suc fuel) n h pos = rw (lt→ltb n 10 h) refl

length-two_digits : (n : ℕ) → n < 100 → length (to_text n) ≤ 2
unfolding to_text to_text_fuel
length-two_digits n h = elim (Bool-cases (ltb n 10)) [
  | inl small ↦ rw small (omega arith)
  | inr big ↦
      let front = length-one_digit n (n / 10) (omega arith) (ground arith) in
      rw (big, length-append (to_text_fuel n (n / 10)) ((n % 10 + b'0') ∷ []), front) (omega arith)
]

pub to_text-Injective : (i j : ℕ) → to_text i ≡ to_text j → i ≡ j
to_text-Injective i j e =
    let n = parse_uint-to_text (i + j) i (omega arith) in
    let m = parse_uint-to_text (i + j) j (omega arith) in cc

-- `IFNAMSIZ` less its final zero byte.
abbrev pub ifname_max : ℕ
ifname_max = 15

abbrev after_tap : Text → ℕ → Text
after_tap id i = take 8 id ++ codes "-e" ++ to_text i

same_number : (id : Text) (i j : ℕ) → after_tap id i ≡ after_tap id j → i ≡ j
same_number id i j e =
    to_text-Injective i j (append_cancel_left (take 8 id ++ codes "-e") (to_text i) (to_text j) e)

-- The primary bridged interface of an instance and the extra one of an index below 100 have names
-- that the kernel takes; they differ from each other, and from that of any other index.
pub tap_names_fit :
    (instance_id : Text) (i j : ℕ)
    → i < 100
    → i ≢ j
    → (length (primary_net_bridge_tap_iface instance_id) ≤ ifname_max)
      × (length (extra_net_bridge_tap_iface instance_id i) ≤ ifname_max)
      × (extra_net_bridge_tap_iface instance_id i ≢ primary_net_bridge_tap_iface instance_id)
      × (extra_net_bridge_tap_iface instance_id i ≢ extra_net_bridge_tap_iface instance_id j)
unfolding primary_net_bridge_tap_iface extra_net_bridge_tap_iface
tap_names_fit id i j hi other =
    let head = length-take_le 8 id in
    let number = length-two_digits i hi in
    let dash = length-append (take 8 id) (codes "-e") in
    let front = length-append (take 8 id ++ codes "-e") (to_text i) in
    (
      omega (arith, head),
      omega (arith, head, number, dash, front),
      λ e. let m = ap length e in omega (arith, dash, front, m),
      λ e. other (
          same_number id i j
            (append_cancel_left (codes "tap") (after_tap id i) (after_tap id j) e)),
    )
