-- ===== src/Tests/DemangleTests.antt =====
-- Names that dylan_demangle of sources/lib/run-time/demangle.c demangles, and the theorems at them.
use opendylan.Prelude.{◌+◌, ◌≡◌, refl, arith, [], ◌∷◌, ◌++◌}
use opendylan.Demangle.{
  constant_prefix, returns, overrun, look_up, demangle_map, abbreviated, copy_string, drop,
  read_digits, escaped, module_named, dylan_module, library_again, marked, special_char,
  demangle_char, demangle_loop, dylan_demangle, module_sep, library_sep, iep_mark, colon,
}
use opendylan.Demangle.Bounds.{Within, marks_slack, dylan_demangle-Within}
use opendylan.Demangle.Names.{mangled, Mangles, ends, mangles, dylan_demangle-Mangles}

-- "aVbI" is "a:b:b".
fills_in_module :
    dylan_demangle 9 (97 ∷ 86 ∷ 98 ∷ 73 ∷ []) ≡ returns (97 ∷ 58 ∷ 98 ∷ 58 ∷ 98 ∷ 0 ∷ [])
unfolding look_up demangle_map copy_string drop library_again marked special_char demangle_char
    demangle_loop dylan_demangle
fills_in_module = refl

-- "KaKiZ37Z" is "a" of the module "internal" of the library "dylan", and "%".
abbreviates :
    dylan_demangle 30 (75 ∷ 97 ∷ 75 ∷ 105 ∷ 90 ∷ 51 ∷ 55 ∷ 90 ∷ [])
    ≡ returns (
        97 ∷ 105 ∷ 110 ∷ 116 ∷ 101 ∷ 114 ∷ 110 ∷ 97 ∷ 108 ∷ 58 ∷ 100 ∷ 121 ∷ 108 ∷ 97 ∷ 110 ∷ 37 ∷ 0
        ∷ [])
unfolding look_up demangle_map abbreviated copy_string read_digits escaped module_named dylan_module
    special_char demangle_char demangle_loop dylan_demangle
abbreviates = refl

-- Of "aVbM" 6 characters are written into 5.
writes_past_end :
    dylan_demangle 5 (97 ∷ 86 ∷ 98 ∷ 77 ∷ []) ≡ returns (97 ∷ 58 ∷ 98 ∷ 58 ∷ 35 ∷ 0 ∷ [])
unfolding look_up demangle_map copy_string drop library_again marked special_char demangle_char
    demangle_loop dylan_demangle
writes_past_end = refl

-- "aK" ends where an abbreviation is expected.
reads_past_end : dylan_demangle 9 (97 ∷ 75 ∷ []) ≡ overrun (97 ∷ [])
unfolding look_up demangle_map dylan_module special_char demangle_char demangle_loop dylan_demangle
reads_past_end = refl

dylan_demangle-Within_example :
    Within (5 + marks_slack (97 ∷ 86 ∷ 98 ∷ 77 ∷ [])) (dylan_demangle 5 (97 ∷ 86 ∷ 98 ∷ 77 ∷ []))
dylan_demangle-Within_example = dylan_demangle-Within 5 (97 ∷ 86 ∷ 98 ∷ 77 ∷ [])

plus : Mangles (43 ∷ []) (65 ∷ [])
unfolding mangled
plus = mangles (omega arith) refl ends

letter : Mangles (97 ∷ []) (97 ∷ [])
unfolding mangled
letter = mangles (omega arith) refl ends

-- "KAYaVaI" is "+:a:a", in a buffer that has just the room.
dylan_demangle-Mangles_example :
    dylan_demangle 6 (
      constant_prefix
      ∷ ((65 ∷ []) ++ (module_sep ∷ ((97 ∷ []) ++ (library_sep ∷ ((97 ∷ []) ++ (iep_mark ∷ [])))))))
    ≡ returns ((43 ∷ []) ++ (colon ∷ []) ++ (97 ∷ []) ++ (colon ∷ []) ++ (97 ∷ []) ++ (0 ∷ []))
dylan_demangle-Mangles_example =
    dylan_demangle-Mangles (43 ∷ []) (65 ∷ []) (97 ∷ []) (97 ∷ []) (97 ∷ []) (97 ∷ []) 6 plus letter
      letter (omega arith)
