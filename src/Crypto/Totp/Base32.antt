-- ===== src/Crypto/Totp/Base32.antt =====
-- Base32 decoding regroups the bits of the text, big end first.
use harbour_leyni.Prelude.{
  ℕ, zero, suc, ◌+◌, ◌-◌, ◌*◌, ◌/◌, ◌%◌, ◌^◌, ◌<◌, ◌≡◌, refl, subst, arith, ◌||◌, ◌⊎◌, inl, inr,
  Bool-cases, leb, ◌==◌, [], ◌∷◌, Bytes, IsBytes, length, ok, >>=-eq-ok,
}
use native.Mathlib.Nat.{one-le-pow}
use harbour_leyni.Crypto.Totp.{base32_value, base32_loop, base32_decode}

-- The values of the characters that carry bits, in order.
abbrev pub Carries : Bytes → Bytes → Type 0
Carries [] vs = vs ≡ []
Carries (c ∷ cs) vs =
    (((c ≡ b' ') ⊎ (c ≡ b'=')) × Carries cs vs)
    ⊎ ((v : ℕ) × (ws : Bytes) × (base32_value c ≡ ok v) × (vs ≡ v ∷ ws) × Carries cs ws)

-- Digits of base `2 ^ k` behind `n`.
pub number : ℕ → ℕ → Bytes → ℕ
number k n [] = n
number k n (d ∷ ds) = number k (n * 2 ^ k + d) ds

base32_value-lt : (c : ℕ) {v : ℕ} → base32_value c ≡ ok v → v < 32
unfolding base32_value
base32_value-lt c h = ground arith

-- What the loop keeps: `bits` low bits of `buffer` are still to be written.
pub record Regroups (sofar written buffer bits : ℕ) : Type 0 where
  pub few : bits < 8
  pub same : sofar ≡ written * 2 ^ bits + buffer % 2 ^ bits

mod-lt_pow : (n k : ℕ) → n % 2 ^ k < 2 ^ k
mod-lt_pow n k = omega (arith, one-le-pow k 2)

-- A round that writes no byte; `buffer` wraps around in 32 bits.
Regroups-wait :
    (sofar written buffer bits v : ℕ)
    → v < 32
    → bits < 3
    → Regroups sofar written buffer bits
    → Regroups (sofar * 32 + v) written (buffer * 32 % 2 ^ 32 + v) (bits + 5)
Regroups-wait sofar written buffer zero v hv h r = record {
  few = omega arith;
  same = omega (arith, r.same);
}
Regroups-wait sofar written buffer (suc zero) v hv h r = record {
  few = omega arith;
  same = omega (arith, r.same);
}
Regroups-wait sofar written buffer (suc (suc zero)) v hv h r = record {
  few = omega arith;
  same = omega (arith, r.same);
}
Regroups-wait sofar written buffer (suc (suc (suc bits))) v hv h r = absurd (omega arith)

-- A round that writes a byte.
Regroups-emit :
    (sofar written buffer bits v : ℕ)
    → v < 32
    → bits < 5
    → Regroups sofar written buffer (bits + 3)
    → Regroups
        (sofar * 32 + v)
        (written * 256 + (buffer * 32 % 2 ^ 32 + v) / 2 ^ bits % 256)
        (buffer * 32 % 2 ^ 32 + v)
        bits
Regroups-emit sofar written buffer zero v hv h r = record {
  few = omega arith;
  same = omega (arith, r.same);
}
Regroups-emit sofar written buffer (suc zero) v hv h r = record {
  few = omega arith;
  same = omega (arith, r.same);
}
Regroups-emit sofar written buffer (suc (suc zero)) v hv h r = record {
  few = omega arith;
  same = omega (arith, r.same);
}
Regroups-emit sofar written buffer (suc (suc (suc zero))) v hv h r = record {
  few = omega arith;
  same = omega (arith, r.same);
}
Regroups-emit sofar written buffer (suc (suc (suc (suc zero)))) v hv h r = record {
  few = omega arith;
  same = omega (arith, r.same);
}
Regroups-emit sofar written buffer (suc (suc (suc (suc (suc bits))))) v hv h r =
    absurd (omega arith)

-- What the rest of the text adds: `vs` are its values, `out` the bytes that it writes, and `low` is
-- the buffer that is left at the end.
record Regrouped (cs out : Bytes) (sofar written bits : ℕ) : Type 0 where
  vs : Bytes
  low : ℕ
  left : ℕ
  carries : Carries cs vs
  bytes : IsBytes out
  total : Regroups (number 5 sofar vs) (number 8 written out) low left
  count : 8 * length out + left ≡ 5 * length vs + bits

abbrev shifted : ℕ → ℕ → ℕ
shifted buffer v = buffer * 32 % 2 ^ 32 + v

-- One round of the loop on a text that is accepted.
data Round (c : ℕ) (cs out : Bytes) (buffer bits : ℕ) : Type 0 where
  skips : (c ≡ b' ') ⊎ (c ≡ b'=') → base32_loop cs buffer bits ≡ ok out → Round c cs out buffer bits
  waits :
      (v : ℕ)
      → base32_value c ≡ ok v
      → bits < 3
      → base32_loop cs (shifted buffer v) (bits + 5) ≡ ok out
      → Round c cs out buffer bits
  emits :
      (v k : ℕ) (tail : Bytes)
      → base32_value c ≡ ok v
      → bits ≡ k + 3
      → base32_loop cs (shifted buffer v) k ≡ ok tail
      → (shifted buffer v / 2 ^ k % 256) ∷ tail ≡ out
      → Round c cs out buffer bits

base32-Round :
    (c : ℕ) (cs : Bytes) (buffer bits : ℕ) {out : Bytes}
    → base32_loop (c ∷ cs) buffer bits ≡ ok out
    → Round c cs out buffer bits
unfolding base32_loop
base32-Round c cs buffer bits {out} h = elim (Bool-cases (c == b' ' || c == b'=')) [
  | inl blank ↦ skips (ground (arith, blank)) (ground (arith, blank))
  | inr letter ↦
      let (v, hv, h1) = >>=-eq-ok (base32_value c) _ (rw letter at h) in
      elim (Bool-cases (leb 8 (bits + 5))) [
        | inl full ↦
            let k : ℕ = bits + 5 - 8 in
            let (tail, ht, h2) =
              >>=-eq-ok (base32_loop cs (shifted buffer v) k)
                (λ (o : Bytes). ok ((shifted buffer v / 2 ^ k % 256) ∷ o)) (rw full at h1) in
            emits v k tail hv (ground arith) ht (cc h2)
        | inr room ↦ waits v hv (ground arith) (rw room at h1)
      ]
]

base32_loop_end :
    (sofar written buffer bits : ℕ) {out : Bytes}
    → Regroups sofar written buffer bits
    → base32_loop [] buffer bits ≡ ok out
    → Regrouped [] out sofar written bits
unfolding base32_loop number
base32_loop_end sofar written buffer bits {out} r h =
    let e : [] ≡ out = cc h in
    subst (λ (o : Bytes). Regrouped [] o sofar written bits) e
      (record {
        vs = [];
        low = buffer;
        left = bits;
        carries = refl;
        bytes = tt;
        total = r;
        count = omega arith;
      })

-- A value in front of a text, whose byte is written later or at once.
Regrouped-waits :
    (c v : ℕ) (cs : Bytes) (out : Bytes) (sofar written bits : ℕ)
    → base32_value c ≡ ok v
    → Regrouped cs out (sofar * 32 + v) written (bits + 5)
    → Regrouped (c ∷ cs) out sofar written bits
unfolding number
Regrouped-waits c v cs out sofar written bits hv g = record {
  vs = v ∷ g.vs;
  low = g.low;
  left = g.left;
  carries = inr (v, g.vs, hv, refl, g.carries);
  bytes = g.bytes;
  total = g.total;
  count = omega (arith, g.count);
}

Regrouped-emits :
    (c v byte k : ℕ) (cs tail : Bytes) (sofar written bits : ℕ)
    → base32_value c ≡ ok v
    → bits ≡ k + 3
    → byte < 256
    → Regrouped cs tail (sofar * 32 + v) (written * 256 + byte) k
    → Regrouped (c ∷ cs) (byte ∷ tail) sofar written bits
unfolding number
Regrouped-emits c v byte k cs tail sofar written bits hv e small g = record {
  vs = v ∷ g.vs;
  low = g.low;
  left = g.left;
  carries = inr (v, g.vs, hv, refl, g.carries);
  bytes = (small, g.bytes);
  total = g.total;
  count = omega (arith, g.count);
}

base32_loop-Regrouped :
    (cs : Bytes) (sofar written buffer bits : ℕ) {out : Bytes}
    → Regroups sofar written buffer bits
    → base32_loop cs buffer bits ≡ ok out
    → Regrouped cs out sofar written bits
base32_loop-Regrouped [] sofar written buffer bits r h =
    base32_loop_end sofar written buffer bits r h
base32_loop-Regrouped (c ∷ cs) sofar written buffer bits {out} r h =
    elim (base32-Round c cs buffer bits h) [
      | skips blank rest ↦
          let g = base32_loop-Regrouped cs sofar written buffer bits r rest in
          record {
            vs = g.vs;
            low = g.low;
            left = g.left;
            carries = inl (blank, g.carries);
            bytes = g.bytes;
            total = g.total;
            count = g.count;
          }
      | waits v hv few rest ↦ Regrouped-waits c v cs out sofar written bits hv (
          base32_loop-Regrouped cs (sofar * 32 + v) written (shifted buffer v) (bits + 5)
            (Regroups-wait sofar written buffer bits v (base32_value-lt c hv) few r) rest)
      | emits v k tail hv e rest last ↦
          let byte : ℕ = shifted buffer v / 2 ^ k % 256 in
          let start : Regroups sofar written buffer (k + 3) =
            subst (λ (b : ℕ). Regroups sofar written buffer b) e r in
          subst (λ (o : Bytes). Regrouped (c ∷ cs) o sofar written bits) last
            (Regrouped-emits c v byte k cs tail sofar written bits hv e (omega arith) (
              base32_loop-Regrouped cs (sofar * 32 + v) (written * 256 + byte) (shifted buffer v) k
                (Regroups-emit sofar written buffer k v (base32_value-lt c hv)
                  (omega (arith, r.few)) start)
                rest))
    ]

-- The bits that the characters of an accepted text carry, spaces and padding left out, are the bits
-- of the decoded bytes and fewer than eight more; the 32-bit buffer loses none of them.
pub base32_decode_sound :
    (text : Bytes) {out : Bytes}
    → base32_decode text ≡ ok out
    → (vs : Bytes) × (left rest : ℕ) × Carries text vs
      × IsBytes out
      × (left < 8)
      × (rest < 2 ^ left)
      × (8 * length out + left ≡ 5 * length vs)
      × (number 5 0 vs ≡ number 8 0 out * 2 ^ left + rest)
unfolding base32_decode
base32_decode_sound text h =
    let g = base32_loop-Regrouped text 0 0 0 0 (omega arith) h in
    (
      g.vs,
      g.left,
      g.low % 2 ^ g.left,
      g.carries,
      g.bytes,
      g.total.few,
      mod-lt_pow g.low g.left,
      omega (arith, g.count),
      g.total.same,
    )
