-- ===== src/Device/Doya/Frame/Refused.antt =====
-- What the Dooya driver does not send.
use rs.Prelude.{
  ℕ, ◌<◌, ◌≡◌, refl, ◌∙◌, ◌⊎◌, inl, inr, true, false, none, some, List, arith, neg_one, length, ltb,
  Bool-cases,
}
use rs.Device.Port.{MstpPort}
use rs.Device.Doya.{
  Package, build, refused, addressed, package_of, clear_reply, doya_send_package_handle,
}
use rs.Device.Doya.Frame.{IsReady, made, request, made-request, made-some, send_lem}

made-none :
    (m v : ℕ) (p : Package)
    → made m v p ≡ none
    → (package_of m v p ≡ none)
      ⊎ ((q : Package) × (package_of m v p ≡ some q) × (refused q.cmd q ≡ true))
unfolding made
made-none m v p e = ground arith

no_frame :
    (h : MstpPort) {buf : List ℕ}
    → IsReady h buf
    → (package_of h.method h.value (addressed h) ≡ none)
      ⊎ ((q : Package) × (package_of h.method h.value (addressed h) ≡ some q)
          × (refused q.cmd q ≡ true))
    → (h' : MstpPort) × (doya_send_package_handle (some h) ≡ (neg_one, some h'))
      × (h'.package_buffer ≡ some buf)
unfolding doya_send_package_handle
no_frame h {buf} r (inl e) = elim (Bool-cases (ltb h.address_len 2)) [
  | inl short ↦ (h, ground arith, r.points)
  | inr enough ↦ (clear_reply h, ground arith, unfold clear_reply in ground arith)
]
no_frame h {buf} r (inr (q, e, no_address)) = elim (Bool-cases (ltb h.address_len 2)) [
  | inl short ↦ (h, ground arith, r.points)
  | inr enough ↦ (
    record (clear_reply h) { package_buffer = some buf },
    ground (arith, send_lem buf h.package_buffer_len q),
    refl,
  )
]

too_long :
    (h : MstpPort) {buf frame : List ℕ}
    → IsReady h buf
    → (q : Package) × (package_of h.method h.value (addressed h) ≡ some q)
      × (refused q.cmd q ≡ false)
      × (build q.cmd q ≡ frame)
    → h.package_buffer_len < length frame
    → (h' : MstpPort) × (doya_send_package_handle (some h) ≡ (neg_one, some h'))
      × (h'.package_buffer ≡ some buf)
unfolding doya_send_package_handle
too_long h {buf} r (q, e, allowed, built) long = elim (Bool-cases (ltb h.address_len 2)) [
  | inl short ↦ (h, ground arith, r.points)
  | inr enough ↦ (
    record (clear_reply h) { package_buffer = some buf },
    ground (arith, send_lem buf h.package_buffer_len q),
    refl,
  )
]

-- On a ready handle, too short an address, a method that is not the curtain's, or a frame that is
-- longer than `package_buffer_len`: the handler returns -1 and leaves the buffer as it was.
pub doya_send_package_handle_rejects :
    (h : MstpPort) {buf : List ℕ}
    → IsReady h buf
    → (h.address_len < 2)
      ⊎ (request h ≡ none)
      ⊎ ((frame : List ℕ) × (request h ≡ some frame) × (h.package_buffer_len < length frame))
    → (h' : MstpPort) × (doya_send_package_handle (some h) ≡ (neg_one, some h'))
      × (h'.package_buffer ≡ some buf)
doya_send_package_handle_rejects h {buf} r (inl short) =
    (h, unfold doya_send_package_handle in ground arith, r.points)
doya_send_package_handle_rejects h {buf} r (inr (inl e)) =
    no_frame h r (made-none h.method h.value (addressed h) (made-request h r ∙ e))
doya_send_package_handle_rejects h {buf} r (inr (inr (frame, e, long))) =
    too_long h r (made-some h.method h.value (addressed h) (made-request h r ∙ e)) long
