-- ===== src/Report/Printer.antt =====
-- The state of `ReportGenerator` in VMM_Hygine_Report.py, and its `print_*` methods.
use linuxtools.Base.{Bool, true, false, ◌&&◌, List, [], ◌∷◌, ◌++◌, if◌then◌else◌}
use linuxtools.Str.{Text, codes}
use linuxtools.Dict.{Dict}
use linuxtools.Report.Html.{html_encode}
use linuxtools.Report.Output.{Format, is_json, is_html}
use linuxtools.Report.Table.{Cell}

-- A value in a section of `json_data`: a plain value, a dict of plain values, or a table.
pub data Entry : Type 0 where
  plain : Cell → Entry
  object : Dict Cell → Entry
  table : List (Dict Cell) → Entry

abbrev pub Section : Type 0
Section = Dict Entry

-- `out` is all that was written to `out_file`.
pub record State : Type 0 where
  pub format : Format
  pub json_data : Dict Section
  pub out : Text

-- `self.out_file.write(s)`
abbrev pub write : Text → State → State
write s st = record st { out = st.out ++ s }

abbrev pub is_nonempty : Text → Bool
is_nonempty [] = false
is_nonempty (c ∷ cs) = true

unfoldable pub print_text : Text → State → State
print_text text st =
    if is_json st.format
    then st
    else if is_html st.format
    then write (html_encode text) st
    else write text st

-- The markup in front of a section that can be hidden.
unfoldable pub heading_html : Text → Text → Bool → Text
heading_html text id hide =
    codes
      "<table rows=1 cols=2 style='border:none;'>\n<tr style='border:none;'>\n<td style='border:none;'>\n<a name='"
    ++ (id
        ++ (codes "'><h2>"
            ++ (html_encode text
                ++ (codes "</h2></a></td>\n<td style='border:none;'>\n<a id='"
                    ++ (id
                        ++ (codes "_l' href='#"
                            ++ (id
                                ++ (codes "' onclick='toggle(\""
                                    ++ (id
                                        ++ (codes "\"); return false;'>"
                                            ++ ((if hide
                                                  then codes " ...Show"
                                                  else codes " Hide...")
                                                ++ (codes
                                                      "</a>\n</td></tr></table>\n<div style='display:"
                                                    ++ ((if hide
                                                          then codes "none"
                                                          else codes "block")
                                                        ++ (codes "' id='"
                                                            ++ (id ++ codes "_c'>\n")))))))))))))))

unfoldable pub print_heading : Text → Text → Bool → State → State
print_heading text id hide st =
    if is_json st.format
    then st
    else if is_html st.format
    then (if is_nonempty id
        then write (heading_html text id hide) st
        else write (codes "    <h2>" ++ (html_encode text ++ codes "</h2>\n")) st)
    else write (text ++ codes "\n\n") st

unfoldable pub footer_html : Text → Text
footer_html id =
    codes "<a href='#"
    ++ (id
        ++ (codes "' onclick='toggle(\""
            ++ (id ++ (codes "\");'>Hide " ++ (id ++ codes "</a><br>\n</div>\n")))))

unfoldable pub print_footer : Text → State → State
print_footer id st =
    if is_json st.format
    then st
    else if is_html st.format && is_nonempty id
    then write (footer_html id) st
    else st

unfoldable pub print_preformatted : Text → Bool → State → State
print_preformatted text use_delimiters st =
    if is_json st.format
    then st
    else if is_html st.format
    then write (codes "</pre>\n") (print_text text (write (codes "    <pre>") st))
    else write (if use_delimiters then codes "--- END ---\n\n" else codes "\n")
        (write text (write (if use_delimiters then codes "--- BEGIN ---\n" else []) st))
