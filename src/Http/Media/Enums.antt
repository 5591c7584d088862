-- ===== src/Http/Media/Enums.antt =====
-- include/xsl/net/http/proto/media-type.h: the enumerations of main types and subtypes.
use net_cpp.Prelude.{
  ℕ, Bool, false, Option, none, some, List, [], ◌∷◌, get_elem?, Str, codes, str_eq,
}

pub data MediaMainType : Type 0 where
  main_any : MediaMainType
  main_text : MediaMainType
  main_image : MediaMainType
  main_audio : MediaMainType
  main_video : MediaMainType
  main_application : MediaMainType
  main_multipart : MediaMainType
  main_message : MediaMainType
  main_model : MediaMainType
  main_unknown : MediaMainType

-- The value of an enumerator.
abbrev pub main_value : MediaMainType → ℕ
main_value main_any = 0
main_value main_text = 1
main_value main_image = 2
main_value main_audio = 3
main_value main_video = 4
main_value main_application = 5
main_value main_multipart = 6
main_value main_message = 7
main_value main_model = 8
main_value main_unknown = 255

abbrev pub media_main_type_strings : List Str
media_main_type_strings =
    codes "*"
    ∷ codes "text"
    ∷ codes "image"
    ∷ codes "audio"
    ∷ codes "video"
    ∷ codes "application"
    ∷ codes "multipart"
    ∷ codes "message"
    ∷ codes "model"
    ∷ []

pub data MediaSubType : Type 0 where
  sub_any : MediaSubType
  sub_plain : MediaSubType
  sub_css : MediaSubType
  sub_csv : MediaSubType
  sub_html : MediaSubType
  sub_javascript : MediaSubType
  sub_json : MediaSubType
  sub_xml : MediaSubType
  sub_zip : MediaSubType
  sub_gzip : MediaSubType
  sub_jpeg : MediaSubType
  sub_png : MediaSubType
  sub_gif : MediaSubType
  sub_bmp : MediaSubType
  sub_svg : MediaSubType
  sub_tiff : MediaSubType
  sub_webp : MediaSubType
  sub_mp3 : MediaSubType
  sub_wav : MediaSubType
  sub_ogg : MediaSubType
  sub_mpeg : MediaSubType
  sub_mp4 : MediaSubType
  sub_webm : MediaSubType
  sub_ogg_video : MediaSubType
  sub_ogg_audio : MediaSubType
  sub_pdf : MediaSubType
  sub_zip_application : MediaSubType
  sub_gzip_application : MediaSubType
  sub_octet_stream : MediaSubType
  sub_form_data : MediaSubType
  sub_signed : MediaSubType
  sub_encrypted : MediaSubType
  sub_byteranges : MediaSubType
  sub_unknown : MediaSubType

-- The value of an enumerator.
abbrev pub sub_value : MediaSubType → ℕ
sub_value sub_any = 0
sub_value sub_plain = 1
sub_value sub_css = 2
sub_value sub_csv = 3
sub_value sub_html = 4
sub_value sub_javascript = 5
sub_value sub_json = 6
sub_value sub_xml = 7
sub_value sub_zip = 8
sub_value sub_gzip = 9
sub_value sub_jpeg = 10
sub_value sub_png = 11
sub_value sub_gif = 12
sub_value sub_bmp = 13
sub_value sub_svg = 14
sub_value sub_tiff = 15
sub_value sub_webp = 16
sub_value sub_mp3 = 17
sub_value sub_wav = 18
sub_value sub_ogg = 19
sub_value sub_mpeg = 20
sub_value sub_mp4 = 21
sub_value sub_webm = 22
sub_value sub_ogg_video = 23
sub_value sub_ogg_audio = 24
sub_value sub_pdf = 25
sub_value sub_zip_application = 26
sub_value sub_gzip_application = 27
sub_value sub_octet_stream = 28
sub_value sub_form_data = 29
sub_value sub_signed = 30
sub_value sub_encrypted = 31
sub_value sub_byteranges = 32
sub_value sub_unknown = 255

abbrev pub media_sub_type_strings : List Str
media_sub_type_strings =
    codes "*"
    ∷ codes "plain"
    ∷ codes "css"
    ∷ codes "csv"
    ∷ codes "html"
    ∷ codes "javascript"
    ∷ codes "json"
    ∷ codes "xml"
    ∷ codes "zip"
    ∷ codes "gzip"
    ∷ codes "jpeg"
    ∷ codes "png"
    ∷ codes "gif"
    ∷ codes "bmp"
    ∷ codes "svg"
    ∷ codes "tiff"
    ∷ codes "webp"
    ∷ codes "mp3"
    ∷ codes "wav"
    ∷ codes "ogg"
    ∷ codes "mpeg"
    ∷ codes "mp4"
    ∷ codes "webm"
    ∷ codes "ogg-video"
    ∷ codes "ogg-audio"
    ∷ codes "pdf"
    ∷ codes "zip"
    ∷ codes "gzip"
    ∷ codes "octet-stream"
    ∷ codes "form-data"
    ∷ codes "signed"
    ∷ codes "encrypted"
    ∷ codes "byteranges"
    ∷ []

-- `to_string_view`, src/net/http/proto/media-type.cpp; `none` past the end of the table.
unfoldable pub main_to_string : MediaMainType → Option Str
main_to_string t = get_elem? media_main_type_strings (main_value t)

unfoldable pub sub_to_string : MediaSubType → Option Str
sub_to_string t = get_elem? media_sub_type_strings (sub_value t)

-- `operator==` with a text
abbrev pub text_is : Option Str → Str → Bool
text_is none s = false
text_is (some t) s = str_eq t s

unfoldable pub main_is : MediaMainType → Str → Bool
unfolding main_to_string
main_is t s = text_is (main_to_string t) s

unfoldable pub sub_is : MediaSubType → Str → Bool
unfolding sub_to_string
sub_is t s = text_is (sub_to_string t) s
