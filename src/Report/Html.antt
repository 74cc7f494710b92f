-- ===== src/Report/Html.antt =====
-- `html_encode` of VMM_Hygine_Report.py.
pub mod Laws
use linuxtools.Base.{ℕ, List, [], ◌∷◌, ◌++◌}
use linuxtools.Str.{Text, codes, replace}

-- The five replacements, in the order of the chain.
unfoldable pub html_encode : Text → Text
html_encode text = replace b'\'' (codes "&#39;") (
    replace b'"' (codes "&quot;") (
      replace b'>' (codes "&gt;")
        (replace b'<' (codes "&lt;") (replace b'&' (codes "&amp;") text))))
