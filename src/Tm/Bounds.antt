-- ===== src/Tm/Bounds.antt =====
-- Packing a telemetry frame stays in range.
use osdlp.Common.{
  ℕ, zero, suc, ◌+◌, ◌-◌, ◌≤◌, ◌≡◌, refl, ◌∙◌, inl, inr, Bool, true, false, not, List, ◌∷◌, Option,
  none, some, arith, length, if◌then◌else◌, ◌==◌, ltb, Bool-cases, bit_and, ◌>>>◌,
}
use osdlp.Common.Memory.{◌>>=◌}
use osdlp.Common.Memory.Bounds.{Kept, Kept-some, bind-Kept, store-Kept, memcpy-Kept, write_at-Kept}
use osdlp.Tc.Frame.Bounds.{calc_crc_returns}
use osdlp.Tm.Types.{TmPrimaryHdr, TmSecHdr, TmTransferFrame}
use osdlp.Tm.{
  repeated, memset, tm_idle_packet, store_tm_hdr, store_sec_hdr, store_tm_crc, store_tm_data,
  tm_pack, calc_crc, seal_tm,
}

hdr-Kept :
    (h : TmPrimaryHdr) (buf : List ℕ) → 6 ≤ length buf → Kept (length buf) (store_tm_hdr h buf)
unfolding store_tm_hdr
hdr-Kept h (a ∷ b ∷ c ∷ d ∷ e ∷ f ∷ buf) room = refl
hdr-Kept h buf room = absurd (omega arith)

sec_hdr-Kept :
    (h : TmSecHdr) (buf : List ℕ)
    → 7 + h.sec_hdr_id.length ≤ length buf
    → h.sec_hdr_id.length ≤ length h.sec_hdr_data_field
    → Kept (length buf) (store_sec_hdr h buf)
unfolding store_sec_hdr
sec_hdr-Kept h (a ∷ b ∷ c ∷ d ∷ e ∷ f ∷ g ∷ buf) room has =
    memcpy-Kept (a ∷ b ∷ c ∷ d ∷ e ∷ f ∷ _ ∷ buf) 7 h.sec_hdr_data_field h.sec_hdr_id.length has
      (omega arith)
sec_hdr-Kept h buf room has = absurd (omega arith)

pub length-repeated : (n v : ℕ) → length (repeated n v) ≡ n
length-repeated zero v = refl
length-repeated (suc n) v = omega (arith, length-repeated n v)

memset-Kept :
    (dst : List ℕ) (at v n : ℕ) → at + n ≤ length dst → Kept (length dst) (memset dst at v n)
memset-Kept dst at v n room =
    write_at-Kept dst at (repeated n v) (omega (arith, length-repeated n v))

-- A step that is taken or left out keeps the length, where the buffer has it.
step-Kept :
    (n : ℕ) (b : Bool) (buf : List ℕ) (o : Option (List ℕ))
    → length buf ≡ n
    → (b ≡ true → Kept (length buf) o)
    → Kept n (if b then o else some buf)
step-Kept n true buf none len k = k refl
step-Kept n true buf (some out) len k = k refl ∙ len
step-Kept n false buf o len k = len

-- The frame's parts fit into the frame, and the frame into the buffer; what is copied has the length
-- that is told.
pub record FitsFrame (tf : TmTransferFrame) (bytes : List ℕ) (len : ℕ) (buf : List ℕ) : Type 0 where
  pub header_len : 6 ≤ tf.mission.header_len
  pub sec_hdr :
      tf.primary_hdr.status.sec_hdr ≡ 1
      → 7 + tf.secondary_hdr.sec_hdr_id.length ≤ tf.mission.header_len
  pub sec_hdr_data : tf.secondary_hdr.sec_hdr_id.length ≤ length tf.secondary_hdr.sec_hdr_data_field
  pub ocf : length tf.ocf ≡ 4
  pub data_len : len ≤ tf.mission.max_data_len
  pub has : len ≤ length bytes
  pub frame_len :
      tf.mission.header_len + tf.mission.max_data_len + (if tf.primary_hdr.ocf == 1 then 4 else 0)
      ≤ tf.mission.frame_len
  pub crc : 2 ≤ tf.mission.frame_len
  pub room : tf.mission.frame_len ≤ length buf

data-Kept :
    (tf : TmTransferFrame) (bytes : List ℕ) (len : ℕ) (buf buf' : List ℕ)
    → FitsFrame tf bytes len buf
    → length buf' ≡ length buf
    → Kept (length buf) (store_tm_data tf bytes len buf')
unfolding store_tm_data
data-Kept tf bytes len buf buf' v n0 =
    let m = tf.mission in
    bind-Kept _ _ _
      (step-Kept _ (tf.primary_hdr.status.sec_hdr == 1) buf' _ n0 λ e.
        sec_hdr-Kept tf.secondary_hdr buf' (ground (arith, v.sec_hdr, v.room, v.frame_len))
          v.sec_hdr_data)
      λ buf1 n1.
        bind-Kept _ _ _
          (step-Kept _ (not (len == 0)) buf1 _ n1 λ e.
            memcpy-Kept buf1 m.header_len bytes len v.has
              (ground (arith, v.room, v.frame_len, v.data_len)))
          λ buf2 n2.
            bind-Kept _ _ _
              (step-Kept _ (tf.primary_hdr.ocf == 1) buf2 _ n2 λ e.
                memcpy-Kept buf2 (m.header_len + m.max_data_len) tf.ocf 4 (omega (arith, v.ocf))
                  (ground (arith, v.room, v.frame_len)))
              λ buf3 n3. step-Kept _ (ltb len m.max_data_len) buf3 _ n3 λ e.
                memset-Kept buf3 (m.header_len + len) tm_idle_packet (m.max_data_len - len)
                  (ground (arith, v.room, v.frame_len, v.data_len))

-- The run has succeeded, with a result that meets `P`.
abbrev Gives : {A : Type 0} → (A → Type 0) → Option A → Type 0
Gives P none = ⊥
Gives P (some a) = P a

bind-Gives :
    {A : Type 0} (P : A → Type 0) (n : ℕ) (o : Option (List ℕ)) (f : List ℕ → Option A)
    → Kept n o
    → ((out : List ℕ) → length out ≡ n → Gives P (f out))
    → Gives P (o >>= f)
bind-Gives P n none f k g = k
bind-Gives P n (some out) f k g = g out k

Gives-some : {A : Type 0} (P : A → Type 0) (o : Option A) → Gives P o → (a : A) × (o ≡ some a) × P a
Gives-some P none k = absurd k
Gives-some P (some a) k = (a, refl, k)

sum_then :
    (buf : List ℕ) (n m : ℕ) (f : ℕ → Option (List ℕ × ℕ))
    → n ≤ length buf
    → ((crc : ℕ) → Gives (λ out. length out.0 ≡ m) (f crc))
    → Gives (λ out. length out.0 ≡ m) (calc_crc buf n >>= f)
sum_then buf n m f room g = let (crc, summed) = calc_crc_returns buf n room in rw summed (g crc)

tm_crc_returns :
    (frame_len : ℕ) (buf : List ℕ)
    → 2 ≤ frame_len
    → frame_len ≤ length buf
    → Gives (λ out. length out.0 ≡ length buf) (store_tm_crc frame_len buf)
unfolding store_tm_crc
tm_crc_returns frame_len buf long room =
    let whole : ltb frame_len 2 ≡ false = ground arith in
    rw whole (
      bind-Gives _ _ _ _ (store-Kept buf (frame_len - 2) 0 (omega arith)) λ b1 n1.
        bind-Gives _ _ _ _ (store-Kept b1 (frame_len - 1) 0 (omega arith)) λ b2 n2.
          sum_then b2 (frame_len - 2) _ _ (omega arith) λ crc.
            bind-Gives _ _ _ _
              (store-Kept b2 (frame_len - 2) (bit_and (crc >>> 8) 0xff) (omega arith))
              λ b3 n3.
                bind-Gives _ _ _ _ (store-Kept b3 (frame_len - 1) (bit_and crc 0xff) (omega arith))
                  λ b4 n4. n4 ∙ n3 ∙ n2 ∙ n1)

pub sealed_with :
    (tf : TmTransferFrame) (filled : List ℕ) (out : List ℕ × ℕ)
    → (tf.mission.crc_present == 1) ≡ true
    → store_tm_crc tf.mission.frame_len filled ≡ some out
    → seal_tm tf filled ≡ some (out.0, record tf { crc = out.1 })
unfolding seal_tm
sealed_with tf filled out on sum = rw (on, sum) refl

sealed :
    (tf : TmTransferFrame) (buf bytes filled : List ℕ) (len : ℕ)
    → FitsFrame tf bytes len buf
    → length filled ≡ length buf
    → (out : List ℕ) × (crc : ℕ) × (seal_tm tf filled ≡ some (out, record tf { crc = crc }))
      × (length out ≡ length buf)
unfolding seal_tm
sealed tf buf bytes filled len v n = elim (Bool-cases (tf.mission.crc_present == 1)) [
  | inl on ↦
      let (out, sum, m) =
        Gives-some _ _ (tm_crc_returns tf.mission.frame_len filled v.crc (omega (arith, v.room))) in
      (out.0, out.1, sealed_with tf filled out on sum, m ∙ n)
  | inr off ↦ (filled, tf.crc, rw off refl, n)
]

pack_sealed :
    (tf : TmTransferFrame) (buf bytes b1 b2 : List ℕ) (len : ℕ)
    (res : Option (List ℕ × TmTransferFrame))
    → store_tm_hdr tf.primary_hdr buf ≡ some b1
    → store_tm_data tf bytes len b1 ≡ some b2
    → seal_tm tf b2 ≡ res
    → tm_pack tf buf bytes len ≡ res
unfolding tm_pack
pack_sealed tf buf bytes b1 b2 len res e1 e2 e3 = rw (e1, e2) e3

-- If the header, the data field and the field behind it fit into the frame, the frame into the buffer, and what is copied has the length that is told, then `osdlp_tm_pack` stays in range of all its buffers, whatever the header's members hold. It changes nothing of the channel but the checksum.
pub tm_pack_in_range :
    (tf : TmTransferFrame) (buf bytes : List ℕ) (len : ℕ)
    → FitsFrame tf bytes len buf
    → (out : List ℕ) × (crc : ℕ) × (tm_pack tf buf bytes len ≡ some (out, record tf { crc = crc }))
      × (length out ≡ length buf)
tm_pack_in_range tf buf bytes len v =
    let (b1, e1, n1) =
      Kept-some _ _
        (hdr-Kept tf.primary_hdr buf (ground (arith, v.header_len, v.frame_len, v.room))) in
    let (b2, e2, n2) = Kept-some _ _ (data-Kept tf bytes len buf b1 v n1) in
    let (out, crc, e3, n3) = sealed tf buf bytes b2 len v n2 in
    (out, crc, pack_sealed tf buf bytes b1 b2 len _ e1 e2 e3, n3)
