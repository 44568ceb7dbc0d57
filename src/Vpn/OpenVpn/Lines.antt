-- ===== src/Vpn/OpenVpn/Lines.antt =====
-- What stays of a configuration of several lines.
use ur_webif.Base.{
  ℕ, suc, ◌==◌, false, some, List, [], ◌∷◌, ◌++◌, Bytes, ◌≡◌, refl, ap, ◌∙◌, drop, length, eqb,
  eqb_refl, insert, lookup, lookup-insert, Assoc, take-length-append,
}
use ur_webif.Vpn.Endpoint.Printed.{Without, find?-Without, drop_past}
use ur_webif.Vpn.OpenVpn.{add_line, add_directive, add_lines}

add_lines-append :
    (ls ms : List Bytes) (config : Assoc Bytes)
    → add_lines (ls ++ ms) config ≡ add_lines ms (add_lines ls config)
unfolding add_lines
add_lines-append [] ms config = refl
add_lines-append (l ∷ ls) ms config = add_lines-append ls ms (add_line l config)

add_line-directive :
    (c : ℕ) (name value : Bytes) (config : Assoc Bytes)
    → (c == b'#') ≡ false
    → Without b' ' (c ∷ name)
    → add_line ((c ∷ name) ++ b' ' ∷ value) config ≡ insert (c ∷ name) value config
unfolding add_line add_directive
add_line-directive c name value config plain free =
    let at = find?-Without b' ' (c ∷ name) value free in
    rw (add_line, plain, add_directive, at)
      (ap (λ k. insert k (drop (suc (length (c ∷ name))) ((c ∷ name) ++ b' ' ∷ value)) config)
          (take-length-append (c ∷ name) (b' ' ∷ value))
        ∙ ap (λ v. insert (c ∷ name) v config) (drop_past (c ∷ name) b' ' value))

-- For a directive without a blank that does not begin with "#": whatever the lines before it say,
-- after a line of the directive, a blank and a value, the directive has this value, and any other
-- key has what the lines before it gave.
pub add_lines-directive :
    (ls : List Bytes) (c : ℕ) (name value key : Bytes) (config : Assoc Bytes)
    → (c == b'#') ≡ false
    → Without b' ' (c ∷ name)
    → eqb (c ∷ name) key ≡ false
    → (lookup (c ∷ name) (add_lines (ls ++ ((c ∷ name) ++ b' ' ∷ value) ∷ []) config) ≡ some value)
      × (lookup key (add_lines (ls ++ ((c ∷ name) ++ b' ' ∷ value) ∷ []) config)
          ≡ lookup key (add_lines ls config))
unfolding add_lines add_line insert
add_lines-directive ls c name value key config plain free other =
    let before = add_lines ls config in
    let all =
      add_lines-append ls (((c ∷ name) ++ b' ' ∷ value) ∷ []) config
      ∙ add_line-directive c name value before plain free in
    (
      ap (lookup (c ∷ name)) all
          ∙ lookup-insert (c ∷ name) (c ∷ name) value before
          ∙ rw (eqb_refl (c ∷ name)) refl,
      ap (lookup key) all ∙ lookup-insert (c ∷ name) key value before ∙ rw other refl,
    )
