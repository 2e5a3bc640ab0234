-- ===== src/Device/Doya/Reply.antt =====
-- Which replies the Dooya driver accepts.
use rs.Prelude.{
  ℕ, ◌+◌, ◌-◌, ◌<◌, ◌≡◌, ap, ◌∙◌, ◌⊎◌, ◌↔◌, inl, inr, true, false, Option, none, some, List, [],
  ◌∷◌, ◌++◌, arith, ℤ, pos, neg_eio, length, take, get_or, take-append, Bool-cases, if◌then◌else◌,
  ◌==◌, ◌&&◌, ◌≢◌, get_or-append_at, get_or-append_left,
}
use rs.Crc.{Crc, crc_start, crc_loop, modbus_crc16}
use rs.Crc.Residue.{AllBytes, crc_zero, crc_loop-residue_iff}
use rs.Crc.Frame.{crc_start-IsBytes}
use rs.Device.Port.{
  MstpPort, CurtainInfo, curtain_open, curtain_close, curtain_set_percent, curtain_get_device_info,
}
use rs.Device.Doya.{crc_matches, doya_recv_package_handle}

-- A handle whose buffer starts with a reply of `length body + 2` bytes.
pub record Received (h : MstpPort) (body : List ℕ) (a b : ℕ) (rest : List ℕ) : Type 0 where
  pub points : h.package_buffer ≡ some (body ++ (a ∷ b ∷ rest))
  pub counted : h.package_buffer_len ≡ length body + 2
  pub bytes : AllBytes body
  pub first_byte : a < 256
  pub second_byte : b < 256

-- The methods whose reply is only checked.
abbrev pub IsControl : ℕ → Type 0
IsControl m = (m ≡ curtain_open) ⊎ (m ≡ curtain_close) ⊎ (m ≡ curtain_set_percent)

-- The test of the driver, on a reply in those parts.
matches_lem :
    (c : Crc) (body rest : List ℕ) (a b : ℕ)
    → (crc_matches c (body ++ (a ∷ b ∷ rest)) (length body + 2) ≡ true) ↔ ((a ≡ c.lo) × (b ≡ c.hi))
matches_lem c body rest a b = ground (arith, low, high)
  where
    low : get_or (body ++ (a ∷ b ∷ rest)) (length body + 2 - 2) 0 ≡ a
    low =
        ap (λ k. get_or (body ++ (a ∷ b ∷ rest)) k 0) (omega arith)
        ∙ get_or-append_at body (a ∷ b ∷ rest) 0 0

    high : get_or (body ++ (a ∷ b ∷ rest)) (length body + 2 - 1) 0 ≡ b
    high =
        ap (λ k. get_or (body ++ (a ∷ b ∷ rest)) k 0) (omega arith)
        ∙ get_or-append_at body (a ∷ b ∷ rest) 1 0

-- The checksum that the driver computes is that of the body.
body_crc :
    (body rest : List ℕ)
    → modbus_crc16 (body ++ rest) (length body + 2 - 2) ≡ crc_loop crc_start body
unfolding modbus_crc16
body_crc body rest =
    ap (λ k. crc_loop crc_start (take k (body ++ rest))) (omega arith)
    ∙ ap (crc_loop crc_start) (take-append body rest)

recv_control :
    (h : MstpPort) (buf : List ℕ)
    → h.package_buffer ≡ some buf
    → IsControl h.method
    → doya_recv_package_handle (some h) ≡ (
        if crc_matches (modbus_crc16 buf (h.package_buffer_len - 2)) buf h.package_buffer_len
        then (pos 0, none)
        else (neg_eio, none))
unfolding doya_recv_package_handle
recv_control h buf p m = ground arith

checked :
    (h : MstpPort) (body rest : List ℕ) (a b : ℕ)
    → Received h body a b rest
    → crc_matches
        (modbus_crc16 (body ++ (a ∷ b ∷ rest)) (h.package_buffer_len - 2))
        (body ++ (a ∷ b ∷ rest))
        h.package_buffer_len
      ≡ crc_matches (crc_loop crc_start body) (body ++ (a ∷ b ∷ rest)) (length body + 2)
checked h body rest a b r =
    ap (λ n. crc_matches (modbus_crc16 (body ++ (a ∷ b ∷ rest)) (n - 2)) (body ++ (a ∷ b ∷ rest)) n)
      r.counted
    ∙ ap (λ c. crc_matches c (body ++ (a ∷ b ∷ rest)) (length body + 2))
        (body_crc body (a ∷ b ∷ rest))

-- A reply of at least two bytes to open, close or set-percent is accepted exactly when the
-- checksum over the whole reply is zero, and is refused with -EIO otherwise.
pub doya_recv_package_handle-control :
    (h : MstpPort) (body rest : List ℕ) (a b : ℕ)
    → Received h body a b rest
    → IsControl h.method
    → ((crc_loop crc_start (body ++ (a ∷ b ∷ [])) ≡ crc_zero)
        × (doya_recv_package_handle (some h) ≡ (pos 0, none)))
      ⊎ ((crc_loop crc_start (body ++ (a ∷ b ∷ [])) ≢ crc_zero)
          × (doya_recv_package_handle (some h) ≡ (neg_eio, none)))
doya_recv_package_handle-control h body rest a b r m =
    elim (Bool-cases
      (crc_matches (crc_loop crc_start body) (body ++ (a ∷ b ∷ rest)) (length body + 2))) [
        | inl same ↦ inl (
          residue.1 ((matches_lem (crc_loop crc_start body) body rest a b).0 same),
          run ∙ rw same,
        )
        | inr other ↦ inr (
          λ e. cc (other, (matches_lem (crc_loop crc_start body) body rest a b).1 (residue.0 e)),
          run ∙ rw other,
        )
      ]
  where
    residue :
        (crc_loop crc_start (body ++ (a ∷ b ∷ [])) ≡ crc_zero)
        ↔ ((a ≡ (crc_loop crc_start body).lo) × (b ≡ (crc_loop crc_start body).hi))
    residue =
        crc_loop-residue_iff crc_start body a b crc_start-IsBytes r.bytes r.first_byte r.second_byte

    run : doya_recv_package_handle (some h) ≡ (
        if crc_matches (crc_loop crc_start body) (body ++ (a ∷ b ∷ rest)) (length body + 2)
        then (pos 0, none)
        else (neg_eio, none))
    run =
        recv_control h (body ++ (a ∷ b ∷ rest)) r.points m
        ∙ ap (λ t. if t then (pos 0, none) else (neg_eio, none)) (checked h body rest a b r)

-- What the driver answers to a query, given the buffer and the length of the reply.
info_result : List ℕ → ℕ → ℤ × Option CurtainInfo
info_result buf len =
    if len == 7 && crc_matches (record { lo = 0; hi = 0 }) buf len
    then (pos 0, some (record { error = false; runing = true; current_percent = get_or buf 4 0 }))
    else (neg_eio, none)

recv_info :
    (h : MstpPort) (buf : List ℕ)
    → h.package_buffer ≡ some buf
    → h.method ≡ curtain_get_device_info
    → doya_recv_package_handle (some h) ≡ info_result buf h.package_buffer_len
unfolding doya_recv_package_handle info_result
recv_info h buf p m = ground arith

-- A reply of at least two bytes to the query of the position is refused with -EIO unless it has
-- seven bytes and both its checksum bytes are zero, whatever the checksum of the reply is: the
-- driver compares them with a checksum that it has not computed.
pub doya_recv_package_handle-info :
    (h : MstpPort) (body rest : List ℕ) (a b : ℕ)
    → Received h body a b rest
    → h.method ≡ curtain_get_device_info
    → doya_recv_package_handle (some h) ≡ (
        if (length body == 5 && (a == 0 && b == 0))
        then (
          pos 0,
          some (record { error = false; runing = true; current_percent = get_or body 4 0 }),
        )
        else (neg_eio, none))
unfolding info_result
doya_recv_package_handle-info h body rest a b r m =
    recv_info h (body ++ (a ∷ b ∷ rest)) r.points m
    ∙ ap (info_result (body ++ (a ∷ b ∷ rest))) r.counted
    ∙ ground (arith, zero_lem, get_or-append_left body (a ∷ b ∷ rest) 4 0)
  where
    zero_lem :
        (crc_matches (record { lo = 0; hi = 0 }) (body ++ (a ∷ b ∷ rest)) (length body + 2) ≡ true)
        ↔ ((a ≡ 0) × (b ≡ 0))
    zero_lem = matches_lem (record { lo = 0; hi = 0 }) body rest a b
