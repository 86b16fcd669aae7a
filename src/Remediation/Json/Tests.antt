-- ===== src/Remediation/Json/Tests.antt =====
-- extractJSON at concrete answers.
use aotanami.Prelude.{[], ◌≡◌, refl, Text, codes, has_prefix}
use aotanami.Remediation.Json.{extract_json}

abbrev prose : Text
prose = codes "Sure: {\"fixes\": {}} done"

plain_object : extract_json (codes " {\"a\": 1} ") ≡ codes "{\"a\": 1}"
unfolding extract_json has_prefix
plain_object = refl

object_in_prose : extract_json prose ≡ codes "{\"fixes\": {}}"
unfolding extract_json has_prefix
object_in_prose = refl

code_block : extract_json (codes "x ```json [1] ``` y") ≡ codes "[1]"
unfolding extract_json has_prefix
code_block = refl

no_object : extract_json (codes "sorry") ≡ []
unfolding extract_json has_prefix
no_object = refl
