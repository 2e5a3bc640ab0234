-- ===== src/Device/Loreley/Reply.antt =====
-- The replies that the Loreley driver takes, and what it reads from them.
use rs.Prelude.{
  ℕ, zero, suc, ◌+◌, ◌-◌, ◌%◌, ◌≤◌, ◌<◌, ◌≡◌, ◌≢◌, refl, ◌∙◌, Bool, true, false, ◌&&◌, ◌||◌, not,
  none, some, List, [], ◌∷◌, arith, pos, neg_eio, neg_eperm, length, get_or, set, drop, ◌==◌,
  if◌then◌else◌, length-set, length-drop, get_or-set, get_or-set_self,
}
use rs.Device.Port.{MstpPort}
use rs.Device.Loreley.{info_of, accept, loreley_recv_package_handle}
use rs.Device.Loreley.Sum.{sum, sum-set_cases, calculate_sum_check_iff}

-- A reply of `len` bytes: 0x55 at the start, 0x0d at the end, and bytes between that sum to zero
-- modulo 256.
abbrev pub is_intact : List ℕ → ℕ → Bool
is_intact buf len =
    get_or buf 0 0 == 0x55
    && get_or buf (len - 1) 0 == 0x0d
    && (sum (drop 1 buf) (len - 3) + get_or buf (len - 2) 0) % 256 == 0

-- The handle points to a reply of `package_buffer_len` bytes, at least 3.
pub record Received (h : MstpPort) (buf : List ℕ) : Type 0 where
  pub points : h.package_buffer ≡ some buf
  pub long : 3 ≤ h.package_buffer_len
  pub storage : h.package_buffer_len ≤ length buf
  pub byte : get_or buf (h.package_buffer_len - 2) 0 < 256

-- Of the replies of at least 3 bytes, the driver takes exactly those that start with 0x55, end
-- with 0x0d and sum to zero modulo 256 between, and reads them by the method: nothing for a
-- switch, the information for a query if the reply has 18 bytes (-EIO if not), and -EPERM for any
-- other method. Any other reply gives -EIO. What is read is what the handler reads: the temperature
-- from byte 7, the humidity from 9, pm2.5 from byte 11 alone, the error from 14 and `runing` from 15;
-- the layout that the file has elsewhere puts open or closed at byte 6, pm2.5 at 11 and 12, and the
-- error's level at 15.
pub loreley_recv_package_handle-reply :
    (h : MstpPort) {buf : List ℕ}
    → Received h buf
    → loreley_recv_package_handle (some h) ≡ (
        if is_intact buf h.package_buffer_len
        then if h.method == 201 || h.method == 202
          then (pos 0, none)
          else if h.method == 204
          then if h.package_buffer_len == 18
            then (
              pos 0,
              some (record {
                error = not (get_or buf 14 0 == 0);
                runing = not (get_or buf 15 0 == 0);
                room_temperature = get_or buf 7 0;
                room_humidity = get_or buf 9 0;
                pm2_5 = get_or buf 11 0;
                fresh_level = 1;
              }),
            )
            else (neg_eio, none)
          else (neg_eperm, none)
        else (neg_eio, none))
unfolding loreley_recv_package_handle accept info_of
loreley_recv_package_handle-reply h {buf} r = ground (
  arith,
  calculate_sum_check_iff (drop 1 buf) (h.package_buffer_len - 3)
      (get_or buf (h.package_buffer_len - 2) 0) r.byte,
)

get_or-drop : (l : List ℕ) (i : ℕ) → get_or (drop 1 l) i 0 ≡ get_or l (suc i) 0
get_or-drop [] i = refl
get_or-drop (b ∷ l) i = refl

drop-set : (l : List ℕ) (i v : ℕ) → drop 1 (set l (suc i) v) ≡ set (drop 1 l) i v
drop-set [] i v = refl
drop-set (b ∷ l) i v = refl

-- A reply with one wrong byte is not intact.
set-is_intact :
    (buf : List ℕ) (len i v : ℕ)
    → 3 ≤ len
    → len ≤ length buf
    → is_intact buf len ≡ true
    → i < len
    → get_or buf i 0 < 256
    → v < 256
    → v ≢ get_or buf i 0
    → is_intact (set buf i v) len ≡ false
set-is_intact buf len zero v long room ok lt old new ne =
    ground (arith, get_or-set_self buf 0 v 0 (omega arith))
set-is_intact buf len (suc i) v long room ok lt old new ne = ground (
  arith,
  drop-set buf i v,
  length-drop 1 buf,
  sum-set_cases (drop 1 buf) (len - 3) i v (omega (arith, length-drop 1 buf)),
  get_or-drop buf i,
  get_or-set buf (suc i) 0 v 0 (omega arith),
  get_or-set buf (suc i) (len - 1) v 0 (omega arith),
  get_or-set buf (suc i) (len - 2) v 0 (omega arith),
)

-- No single wrong byte passes: a received and intact reply with one of its bytes changed to
-- another byte gives -EIO, for every method.
pub loreley_recv_package_handle-set :
    (h : MstpPort) {buf : List ℕ} (i v : ℕ)
    → Received h buf
    → is_intact buf h.package_buffer_len ≡ true
    → i < h.package_buffer_len
    → get_or buf i 0 < 256
    → v < 256
    → v ≢ get_or buf i 0
    → loreley_recv_package_handle (some (record h { package_buffer = some (set buf i v) }))
      ≡ (neg_eio, none)
loreley_recv_package_handle-set h {buf} i v r ok lt old new ne =
    loreley_recv_package_handle-reply (record h { package_buffer = some (set buf i v) })
      (record {
        points = refl;
        long = r.long;
        storage = rw (length-set buf i v) r.storage;
        byte = ground (
          arith,
          get_or-set buf i (h.package_buffer_len - 2) v 0 (omega (arith, r.storage)),
          r.byte,
        );
      })
    ∙ ground (arith, set-is_intact buf h.package_buffer_len i v r.long r.storage ok lt old new ne)
