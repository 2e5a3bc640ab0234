-- ===== src/Device/Doya/NoReply.antt =====
-- The second interface of app/rs485d/src/device/curtain/doya/doya.c: one function for each command,
-- which fills a package on the stack and sends it. A field that the function does not assign keeps
-- what the stack held, `junk`. The result is the return value and the frame given to `rs485_send`.
use rs.Prelude.{
  ℕ, ◌≡◌, ◌<◌, ap, Option, none, some, List, [], ◌∷◌, arith, ℤ, pos, neg_one, length, get_or, ◌==◌,
  ◌||◌, if◌then◌else◌,
}
use rs.Crc.Residue.{AllBytes}
use rs.Crc.Frame.{sealed}
use rs.Device.Doya.{
  Command, command_open, command_close, command_stop, command_percent, command_delete,
  command_refactory, wo_addr, ro_percent, rw_direction, rw_handle, rw_switch_passive,
  rw_switch_active, ro_version, other, Package, with_crc, fn_command, fn_read, fn_write, build,
  refused,
}
use rs.Device.Doya.Frame.{with_crc-sealed}

-- The switch of `send_package`: it has no default, so another command sends nothing.
pub sends : Command → Package → Option (List ℕ)
sends (other n) p = none
sends c p = some (build c p)

-- `send_package(port, package)`
pub send_package : Package → ℤ × Option (List ℕ)
unfolding sends build refused
send_package p = if refused p.cmd p then (neg_one, none) else (pos 0, sends p.cmd p)

-- A caller of `send_package` that returns 0 whatever it answers.
pub send_and_return : Package → ℤ × Option (List ℕ)
unfolding send_package
send_and_return p = (pos 0, (send_package p).1)

-- The stack's package with the address and the command of the function.
abbrev filled_package : Package → List ℕ → Command → ℕ → ℕ → Package
filled_package junk addr c fn at = record junk {
  addr_low = get_or addr 0 0;
  addr_high = get_or addr 1 0;
  cmd = c;
  command = fn;
  data_addr = at;
}

pub open_curtain_no_reply : Package → List ℕ → ℤ × Option (List ℕ)
unfolding send_and_return
open_curtain_no_reply junk addr =
    send_and_return (filled_package junk addr command_open fn_command 0x01)

pub close_curtain_no_reply : Package → List ℕ → ℤ × Option (List ℕ)
unfolding send_and_return
close_curtain_no_reply junk addr =
    send_and_return (filled_package junk addr command_close fn_command 0x02)

pub stop_curtain_no_reply : Package → List ℕ → ℤ × Option (List ℕ)
unfolding send_and_return
stop_curtain_no_reply junk addr =
    send_and_return (filled_package junk addr command_stop fn_command 0x03)

pub percent_curtain_no_reply : Package → List ℕ → ℕ → ℤ × Option (List ℕ)
unfolding send_and_return
percent_curtain_no_reply junk addr percent =
    send_and_return
      (record (filled_package junk addr command_percent fn_command 0x04) { data_0 = percent })

pub delete_track_curtain_no_reply : Package → List ℕ → ℤ × Option (List ℕ)
unfolding send_and_return
delete_track_curtain_no_reply junk addr =
    send_and_return (filled_package junk addr command_delete fn_command 0x07)

pub refactory_curtain_no_reply : Package → List ℕ → ℤ × Option (List ℕ)
unfolding send_and_return
refactory_curtain_no_reply junk addr =
    send_and_return (filled_package junk addr command_refactory fn_command 0x08)

pub set_addr_curtain_no_reply : Package → List ℕ → List ℕ → ℤ × Option (List ℕ)
unfolding send_and_return
set_addr_curtain_no_reply junk addr new_addr =
    send_and_return (record (filled_package junk addr wo_addr fn_write 0x00) {
      data_0 = 0x02;
      data_1 = get_or new_addr 0 0;
      data_2 = get_or new_addr 1 0;
    })

pub set_direction_curtain_no_reply : Package → List ℕ → ℕ → ℤ × Option (List ℕ)
unfolding send_and_return
set_direction_curtain_no_reply junk addr same =
    send_and_return (record (filled_package junk addr rw_direction fn_write 0x03) { data_0 = same })

pub set_handle_enable_curtain_no_reply : Package → List ℕ → ℕ → ℤ × Option (List ℕ)
unfolding send_and_return
set_handle_enable_curtain_no_reply junk addr enable =
    send_and_return (record (filled_package junk addr rw_handle fn_write 0x04) { data_0 = enable })

pub set_switch_passive_curtain_no_reply : Package → List ℕ → ℕ → ℤ × Option (List ℕ)
unfolding send_and_return
set_switch_passive_curtain_no_reply junk addr kind =
    send_and_return
      (record (filled_package junk addr rw_switch_passive fn_write 0x27) { data_0 = kind })

pub set_switch_active_curtain_no_reply : Package → List ℕ → ℕ → ℤ × Option (List ℕ)
unfolding send_and_return
set_switch_active_curtain_no_reply junk addr kind =
    send_and_return (filled_package junk addr rw_switch_active fn_write 0x28)

pub read_percent_curtain_no_reply : Package → List ℕ → ℤ × Option (List ℕ)
unfolding send_and_return
read_percent_curtain_no_reply junk addr =
    send_and_return (filled_package junk addr ro_percent fn_read 0x02)

pub read_version_curtain_no_reply : Package → List ℕ → ℤ × Option (List ℕ)
unfolding send_and_return
read_version_curtain_no_reply junk addr =
    send_and_return (filled_package junk addr ro_version fn_read 0xfe)

-- What the functions have as arguments and leave on the stack are bytes.
pub record IsStack (junk : Package) (addr : List ℕ) : Type 0 where
  pub low_byte : get_or addr 0 0 < 256
  pub high_byte : get_or addr 1 0 < 256
  pub junk_0 : junk.data_0 < 256
  pub junk_1 : junk.data_1 < 256

-- The start of every frame.
abbrev pub line : List ℕ → List ℕ → List ℕ
line addr rest = 0x55 ∷ get_or addr 0 0 ∷ get_or addr 1 0 ∷ rest

-- For an address and a percentage that are bytes, the six commands send 0x55, the address,
-- function 3, the code of the command and, for the position, its value, sealed by the CRC-16,
-- whatever the rest of the package held (as far as it is bytes), and return 0.
pub commands_no_reply-sealed :
    (junk : Package) (addr : List ℕ) (percent : ℕ)
    → IsStack junk addr
    → percent < 256
    → (open_curtain_no_reply junk addr ≡ (pos 0, some (sealed (line addr (3 ∷ 1 ∷ [])))))
      × (close_curtain_no_reply junk addr ≡ (pos 0, some (sealed (line addr (3 ∷ 2 ∷ [])))))
      × (stop_curtain_no_reply junk addr ≡ (pos 0, some (sealed (line addr (3 ∷ 3 ∷ [])))))
      × (percent_curtain_no_reply junk addr percent
          ≡ (pos 0, some (sealed (line addr (3 ∷ 4 ∷ percent ∷ [])))))
      × (delete_track_curtain_no_reply junk addr ≡ (pos 0, some (sealed (line addr (3 ∷ 7 ∷ [])))))
      × (refactory_curtain_no_reply junk addr ≡ (pos 0, some (sealed (line addr (3 ∷ 8 ∷ [])))))
unfolding open_curtain_no_reply close_curtain_no_reply stop_curtain_no_reply
    percent_curtain_no_reply delete_track_curtain_no_reply refactory_curtain_no_reply
commands_no_reply-sealed junk addr percent k h = (
  frame (3 ∷ 1 ∷ []) (omega arith),
  frame (3 ∷ 2 ∷ []) (omega arith),
  frame (3 ∷ 3 ∷ []) (omega arith),
  frame (3 ∷ 4 ∷ percent ∷ []) (omega arith),
  frame (3 ∷ 7 ∷ []) (omega arith),
  frame (3 ∷ 8 ∷ []) (omega arith),
)
  where
    frame :
        (rest : List ℕ)
        → AllBytes rest
        → ◌≡◌ {A = ℤ × Option (List ℕ)}
            (pos 0, some (with_crc (line addr rest) (length (line addr rest))))
            (pos 0, some (sealed (line addr rest)))
    frame rest bytes =
        ap (λ f. (pos 0, some f))
          (with_crc-sealed (line addr rest) (omega arith, (k.low_byte, (k.high_byte, bytes))))

-- For addresses that are bytes: a new address with a byte 0x00 or 0xff is not sent, though the
-- function returns 0; any other is sent, behind its length 2.
pub set_addr_curtain_no_reply-sealed :
    (junk : Package) (addr new_addr : List ℕ)
    → IsStack junk addr
    → get_or new_addr 0 0 < 256
    → get_or new_addr 1 0 < 256
    → let a = get_or new_addr 0 0 in
      let b = get_or new_addr 1 0 in
      set_addr_curtain_no_reply junk addr new_addr ≡ (
        pos 0,
        if (a == 0 || b == 0) || (a == 0xff || b == 0xff)
            then none
            else some (sealed (line addr (2 ∷ 0 ∷ 2 ∷ a ∷ b ∷ []))),
      )
unfolding set_addr_curtain_no_reply
set_addr_curtain_no_reply-sealed junk addr new_addr k ha hb = ground (
  arith,
  with_crc-sealed (line addr (2 ∷ 0 ∷ 2 ∷ get_or new_addr 0 0 ∷ get_or new_addr 1 0 ∷ [])) (
    omega arith,
    (k.low_byte, (k.high_byte, (omega arith, (omega arith, (omega arith, (ha, (hb, tt))))))),
  ),
)

-- For an address of bytes and stack contents that are bytes, the kind of the active switch is not
-- sent: the two data bytes are what the stack held.
pub set_switch_active_ignores_kind :
    (junk : Package) (addr : List ℕ) (kind : ℕ)
    → IsStack junk addr
    → set_switch_active_curtain_no_reply junk addr kind
      ≡ (pos 0, some (sealed (line addr (2 ∷ 0x28 ∷ junk.data_0 ∷ junk.data_1 ∷ []))))
unfolding set_switch_active_curtain_no_reply
set_switch_active_ignores_kind junk addr kind k =
    ap (λ f. (pos 0, some f))
      (with_crc-sealed (line addr (2 ∷ 0x28 ∷ junk.data_0 ∷ junk.data_1 ∷ [])) (
        omega arith,
        (k.low_byte, (k.high_byte, (omega arith, (omega arith, (k.junk_0, (k.junk_1, tt)))))),
      ))
