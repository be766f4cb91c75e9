-- ===== src/Connection/Errors/Tests.antt =====
-- An error document of src/main/c/Connection.cpp, with embedded content that has each placeholder.
use seasocks.Prelude.{◌≡◌, refl, Option, some, Bytes, codes}
use seasocks.Response.Code.{not_found, to_int, name}
use seasocks.Text.Digits.{to_string, print_fuel, digit}
use seasocks.Text.Strings.{replace, replace_loop, replace_step, find_string, starts_with}
use seasocks.Connection.Errors.{error_document}
use seasocks.Connection.Errors.Document.{lines, error_lines}

abbrev template : Bytes
template = codes "%%ERRORCODE%% %%MESSAGE%%: %%BODY%%"

document_of_template :
    error_document not_found (codes "x") (some template) ≡ codes "404 Not Found: x"
unfolding error_document replace replace_loop replace_step find_string starts_with to_string
    print_fuel digit to_int name
document_of_template = refl

abbrev embedded : Bytes → Option Bytes
embedded path = some template

abbrev response : Bytes
response = lines (
    error_lines (codes "1.4.6") (codes "now") not_found
      (error_document not_found (codes "x") (some template)))
