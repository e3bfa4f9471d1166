-- ===== src/Spp/Bounds.antt =====
-- Reading a packet stays in range of the buffer, and what it hands out is in range too.
use osdlp.Common.{
  ℕ, ◌+◌, ◌≤◌, ◌≡◌, ◌≢◌, refl, pos, Bool, List, ◌∷◌, none, some, arith, length, Option, ℤ, negsuc,
  Option-cases, inl, inr,
}
use osdlp.Common.Memory.Laws.{length-pointer_at}
use osdlp.Spp.{SppPrimHdr, load_prim_hdr, Unpacked, spp_unpack}

load_in_range :
    (in_buf : List ℕ) → 6 ≤ length in_buf → (h : SppPrimHdr) × (load_prim_hdr in_buf ≡ some h)
unfolding load_prim_hdr
load_in_range (a ∷ b ∷ c ∷ d ∷ e ∷ f ∷ rest) h = (_, refl)
load_in_range in_buf h = absurd (omega arith)

-- The data behind a pointer that has been set is whole.
abbrev pub DataInRange : SppPrimHdr → Option (List ℕ) → Type 0
DataInRange h none = Unit
DataInRange h (some p) = h.packet_data_len + 1 ≤ length p

-- What is handed out: nothing, or a packet in range of `in_len`, with its whole data behind the
-- pointer.
abbrev pub InRange : ℕ → ℤ → Option Unpacked → Type 0
InRange in_len (negsuc k) u = Unit
InRange in_len (pos n) none = ⊥
InRange in_len (pos n) (some u) = (n ≤ in_len) × DataInRange u.prim_hdr u.out_pack_data

unpack-ne-none :
    (old : SppPrimHdr) (in_buf : List ℕ) (in_len : ℕ) (wanted : Bool)
    → in_len ≤ length in_buf
    → spp_unpack (some old) (some in_buf) in_len wanted ≢ none
unfolding spp_unpack
unpack-ne-none old in_buf in_len wanted room = ground (arith, load_in_range in_buf)

unpack-InRange :
    (old : SppPrimHdr) (in_buf : List ℕ) (in_len : ℕ) (wanted : Bool) (ret : ℤ)
    (u : Option Unpacked)
    → in_len ≤ length in_buf
    → spp_unpack (some old) (some in_buf) in_len wanted ≡ some (ret, u)
    → InRange in_len ret u
unfolding spp_unpack
unpack-InRange old in_buf in_len wanted (negsuc k) u room e = tt
unpack-InRange old in_buf in_len wanted (pos n) none room e = ground (arith, load_in_range in_buf)
unpack-InRange old in_buf in_len wanted (pos n) (some u) room e =
    ground (arith, load_in_range in_buf, length-pointer_at in_buf 6)

-- With `in_len` at most the length of the buffer, `osdlp_spp_unpack` returns and never reads out of
-- range, whether or not the data pointer is wanted. Where it succeeds, the length that it returns is
-- at most `in_len`, and if it sets the data pointer, the packet's whole data stands behind it.
pub spp_unpack_bounds :
    (old : SppPrimHdr) (in_buf : List ℕ) (in_len : ℕ) (wanted : Bool)
    → in_len ≤ length in_buf
    → (ret : ℤ) × (u : Option Unpacked) × (spp_unpack (some old) (some in_buf) in_len wanted
        ≡ some (ret, u))
      × InRange in_len ret u
spp_unpack_bounds old in_buf in_len wanted room =
    elim (Option-cases (spp_unpack (some old) (some in_buf) in_len wanted)) [
      | inl e ↦ absurd (unpack-ne-none old in_buf in_len wanted room e)
      | inr (r, e) ↦ (r.0, r.1, e, unpack-InRange old in_buf in_len wanted r.0 r.1 room e)
    ]
