-- ===== src/Dns/Name.antt =====
-- `dns_parse_name` of 2.3.1-coroutine/async_dns_client_noblock.c: a name in a received packet, with
-- compression, copied as dotted text. `chunk` is the packet's buffer, `ptr` an offset into it, `pos`
-- an offset into `out`. The loop and the call on a pointer share the fuel, one for each pass.
use Prim.Native.Nat.{bit_and}
use test_linux.Base.{
  ℕ, zero, suc, ◌+◌, Bool, true, false, [], ◌∷◌, Run, ok, out_of_fuel, ◌>>=◌, ◌==◌, Bytes, peek,
  slice, write_at,
}
use test_linux.Dns.Request.{dot}

unfoldable pub is_pointer : ℕ → Bool
is_pointer x = bit_and x 0xC0 == 0xC0

-- After a label: a dot if the name goes on. The result is the buffer and how far it moved.
unfoldable pub add_dot : ℕ → Bytes → ℕ → Run (Bytes × ℕ)
add_dot flag out pos = elim (flag == 0) [
  | true ↦ ok (out, 0)
  | false ↦ do out ← write_at out pos (dot ∷ []); ok (out, 1)
]

-- `while (1) { … }`; a pointer calls the function anew, with `pos` at `out + *len`, and leaves the loop.
unfoldable pub name_loop : ℕ → Bytes → ℕ → Bytes → ℕ → ℕ → Run (Bytes × ℕ)
name_loop zero chunk ptr out pos len = out_of_fuel
name_loop (suc f) chunk ptr out pos len = do
  flag ← peek chunk ptr
  elim (flag == 0) [
    | true ↦ ok (out, len)
    | false ↦ elim (is_pointer flag) [
      | true ↦ do n ← peek chunk (ptr + 1); name_loop f chunk n out len len
      | false ↦ do
        label ← slice chunk (ptr + 1) flag
        out ← write_at out pos label
        next ← peek chunk (ptr + 1 + flag)
        (out, k) ← add_dot next out (pos + flag)
        name_loop f chunk (ptr + 1 + flag) out (pos + flag + k) (len + flag + k)
    ]
  ]

unfoldable pub dns_parse_name : ℕ → Bytes → ℕ → Bytes → ℕ → Run (Bytes × ℕ)
dns_parse_name fuel chunk ptr out len = name_loop fuel chunk ptr out len len
