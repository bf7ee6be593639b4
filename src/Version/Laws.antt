-- ===== src/Version/Laws.antt =====
-- Names of versions can be read back.
use polynomial.Prelude.{◌≡◌, refl, some}
use polynomial.Version.{
  SvmVersion, homestead, tangerine_whistle, spurious_dragon, byzantium, constantinople, petersburg,
  name, from_string, first_named,
}

-- The name of a version is read back as that version.
pub from_string-name : (v : SvmVersion) → from_string (name v) ≡ some v
unfolding from_string name first_named
from_string-name homestead = refl
from_string-name tangerine_whistle = refl
from_string-name spurious_dragon = refl
from_string-name byzantium = refl
from_string-name constantinople = refl
from_string-name petersburg = refl
