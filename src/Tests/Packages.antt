-- ===== src/Tests/Packages.antt =====
-- A package with a directory, a configuration file with a space in its name, and a script.
use Prim.Native.String.{◌++◌ as append}
use pilothouse.Base.{
  arith, List, map, keep_if, String, true, false, none, some, [], ◌∷◌, ok, err, ◌≡◌, ◌↔◌, refl, All,
}
use pilothouse.Storage.Names.{has_prefix, trim_suffix}
use pilothouse.Storage.Remote.{contains_code}
use pilothouse.Extract.{
  RpmTools, rpm, split_on, cut_line, digits_from, parse_uint, parse_int, rpm_lines, entry_of,
  rpm_file_table_entry, entries_of_lines, rpm_entries, keep_declared, rpm_dependencies,
  rpm_postinstall, rpm_read_content, unpaired,
}
use pilothouse.Extract.Postinstall.{newline, rpm_postinstall_iff}
use pilothouse.Extract.Rows.{Row, print_table, HasFields}
use pilothouse.Extract.Table.{File, IsFile, described, is_installed, rpm_entries-print_table}

abbrev opt : Row
opt = record { dest = "/opt/a"; mode = "040755"; flags = "0"; owner = "root"; group = "root" }

abbrev conf : Row
conf = record { dest = "/etc/a b.conf"; mode = "0100644"; flags = "1"; owner = ""; group = "root" }

fields : All HasFields (opt ∷ conf ∷ [])
unfolding contains_code parse_uint digits_from parse_int has_prefix
fields = (
  ((refl, refl), ((refl, refl), ((refl, refl), ((refl, refl), (refl, refl))))),
  (((refl, refl), ((refl, refl), ((refl, refl), ((refl, refl), (refl, refl))))), tt),
)

-- A directory, a file and a symbolic link, which is left out.
abbrev link : Row
link = record { dest = "/l"; mode = "0120777"; flags = "0"; owner = "r"; group = "r" }

abbrev packaged : List File
packaged =
    record { row = opt; mode = 16877; flags = 0 }
    ∷ record { row = conf; mode = 33188; flags = 1 }
    ∷ record { row = link; mode = 41471; flags = 0 }
    ∷ []

packaged-IsFile : All IsFile packaged
unfolding contains_code parse_uint digits_from parse_int has_prefix
packaged-IsFile = (
  record { fields = fields.0; mode_text = refl; flags_text = refl; short = omega arith },
  (
    record { fields = fields.1.0; mode_text = refl; flags_text = refl; short = omega arith },
    (
      record {
        fields = ((refl, refl), ((refl, refl), ((refl, refl), ((refl, refl), (refl, refl)))));
        mode_text = refl;
        flags_text = refl;
        short = omega arith;
      },
      tt,
    ),
  ),
)

rpm_entries-print_table_example :
    rpm_entries (print_table (map (λ f. f.row) packaged))
    ≡ ok (map described (keep_if is_installed packaged))
rpm_entries-print_table_example = rpm_entries-print_table packaged packaged-IsFile

rpm_postinstall_iff_example :
    (rpm_postinstall "HAS\nNONE\n" ≡ ok (some "NONE\n"))
    ↔ ("HAS\nNONE\n" ≡ append "HAS" (String.◌∷◌ newline "NONE\n"))
rpm_postinstall_iff_example = rpm_postinstall_iff "HAS\nNONE\n" "NONE\n"

abbrev tools : RpmTools
tools = record {
  table =
      some
        "/opt/a\t040755\t0\troot\troot\n/etc/a b.conf\t0100644\t1\t\troot\n/l\t0120777\t0\tr\tr\n";
  requires = some "/bin/sh\nsystemd >= 250\n";
  require_flags = some "256\n12\n";
  postinstall = some "HAS\ntrue";
  payload = some (λ dest. some "x=1");
}

read_whole :
    rpm tools
    ≡ ok (record {
      entries =
          record {
            dest = "/opt/a";
            perm = 493;
            is_dir = true;
            config = false;
            owner = "root";
            group = "root";
            content = none;
          }
          ∷ record {
            dest = "/etc/a b.conf";
            perm = 420;
            is_dir = false;
            config = true;
            owner = "";
            group = "root";
            content = some "x=1";
          }
          ∷ [];
      dependencies = "systemd >= 250" ∷ [];
      postinstall = some "true";
    })
unfolding rpm split_on cut_line digits_from parse_uint parse_int rpm_lines entry_of
    rpm_file_table_entry entries_of_lines rpm_entries keep_declared rpm_dependencies rpm_postinstall
    rpm_read_content has_prefix trim_suffix
read_whole = refl

not_paired : rpm_dependencies "a\nb\n" "0\n" ≡ err unpaired
unfolding rpm_dependencies rpm_lines split_on trim_suffix
not_paired = refl
