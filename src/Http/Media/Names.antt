-- ===== src/Http/Media/Names.antt =====
-- include/xsl/net/http/proto/media-type.h, namespace common_media_type: the texts of the media types
-- that a file extension can have. Each constant has its name in the source.
use net_cpp.Prelude.{Str, codes}

abbrev pub text_html : Str
text_html = codes "text/html"

abbrev pub text_css : Str
text_css = codes "text/css"

abbrev pub text_xml : Str
text_xml = codes "text/xml"

abbrev pub image_gif : Str
image_gif = codes "image/gif"

abbrev pub image_jpeg : Str
image_jpeg = codes "image/jpeg"

abbrev pub application_javascript : Str
application_javascript = codes "application/javascript"

abbrev pub application_atom_xml : Str
application_atom_xml = codes "application/atom+xml"

abbrev pub application_rss_xml : Str
application_rss_xml = codes "application/rss+xml"

abbrev pub text_mathml : Str
text_mathml = codes "text/mathml"

abbrev pub text_plain : Str
text_plain = codes "text/plain"

abbrev pub text_vnd_sun_j2me_app_descriptor : Str
text_vnd_sun_j2me_app_descriptor = codes "text/vnd.sun.j2me.app-descriptor"

abbrev pub text_vnd_wap_wml : Str
text_vnd_wap_wml = codes "text/vnd.wap.wml"

abbrev pub text_x_component : Str
text_x_component = codes "text/x-component"

abbrev pub image_avif : Str
image_avif = codes "image/avif"

abbrev pub image_png : Str
image_png = codes "image/png"

abbrev pub image_svg_xml : Str
image_svg_xml = codes "image/svg+xml"

abbrev pub image_tiff : Str
image_tiff = codes "image/tiff"

abbrev pub image_vnd_wap_wbmp : Str
image_vnd_wap_wbmp = codes "image/vnd.wap.wbmp"

abbrev pub image_webp : Str
image_webp = codes "image/webp"

abbrev pub image_x_icon : Str
image_x_icon = codes "image/x-icon"

abbrev pub image_x_jng : Str
image_x_jng = codes "image/x-jng"

abbrev pub image_x_ms_bmp : Str
image_x_ms_bmp = codes "image/x-ms-bmp"

abbrev pub font_woff : Str
font_woff = codes "font/woff"

abbrev pub font_woff2 : Str
font_woff2 = codes "font/woff2"

abbrev pub application_java_archive : Str
application_java_archive = codes "application/java-archive"

abbrev pub application_json : Str
application_json = codes "application/json"

abbrev pub application_mac_binhex40 : Str
application_mac_binhex40 = codes "application/mac-binhex40"

abbrev pub application_msword : Str
application_msword = codes "application/msword"

abbrev pub application_pdf : Str
application_pdf = codes "application/pdf"

abbrev pub application_postscript : Str
application_postscript = codes "application/postscript"

abbrev pub application_rtf : Str
application_rtf = codes "application/rtf"

abbrev pub application_vnd_apple_mpegurl : Str
application_vnd_apple_mpegurl = codes "application/vnd.apple.mpegurl"

abbrev pub application_vnd_google_earth_kml_xml : Str
application_vnd_google_earth_kml_xml = codes "application/vnd.google-earth.kml+xml"

abbrev pub application_vnd_google_earth_kmz : Str
application_vnd_google_earth_kmz = codes "application/vnd.google-earth.kmz"

abbrev pub application_vnd_ms_excel : Str
application_vnd_ms_excel = codes "application/vnd.ms-excel"

abbrev pub application_vnd_ms_fontobject : Str
application_vnd_ms_fontobject = codes "application/vnd.ms-fontobject"

abbrev pub application_vnd_ms_powerpoint : Str
application_vnd_ms_powerpoint = codes "application/vnd.ms-powerpoint"

abbrev pub application_vnd_oasis_opendocument_graphics : Str
application_vnd_oasis_opendocument_graphics = codes "application/vnd.oasis.opendocument.graphics"

abbrev pub application_vnd_oasis_opendocument_presentation : Str
application_vnd_oasis_opendocument_presentation =
    codes "application/vnd.oasis.opendocument.presentation"

abbrev pub application_vnd_oasis_opendocument_spreadsheet : Str
application_vnd_oasis_opendocument_spreadsheet =
    codes "application/vnd.oasis.opendocument.spreadsheet"

abbrev pub application_vnd_oasis_opendocument_text : Str
application_vnd_oasis_opendocument_text = codes "application/vnd.oasis.opendocument.text"

abbrev pub application_vnd_openxmlformats_officedocument_presentationml_presentation : Str
application_vnd_openxmlformats_officedocument_presentationml_presentation =
    codes "application/vnd.openxmlformats-officedocument.presentationml.presentation"

abbrev pub application_vnd_openxmlformats_officedocument_spreadsheetml_sheet : Str
application_vnd_openxmlformats_officedocument_spreadsheetml_sheet =
    codes "application/vnd.openxmlformats-officedocument.spreadsheetml.sheet"

abbrev pub application_vnd_openxmlformats_officedocument_wordprocessingml_document : Str
application_vnd_openxmlformats_officedocument_wordprocessingml_document =
    codes "application/vnd.openxmlformats-officedocument.wordprocessingml.document"

abbrev pub application_vnd_wap_wmlc : Str
application_vnd_wap_wmlc = codes "application/vnd.wap.wmlc"

abbrev pub application_wasm : Str
application_wasm = codes "application/wasm"

abbrev pub application_x_7z_compressed : Str
application_x_7z_compressed = codes "application/x-7z-compressed"

abbrev pub application_x_cocoa : Str
application_x_cocoa = codes "application/x-cocoa"

abbrev pub application_x_java_archive_diff : Str
application_x_java_archive_diff = codes "application/x-java-archive-diff"

abbrev pub application_x_java_jnlp_file : Str
application_x_java_jnlp_file = codes "application/x-java-jnlp-file"

abbrev pub application_x_makeself : Str
application_x_makeself = codes "application/x-makeself"

abbrev pub application_x_perl : Str
application_x_perl = codes "application/x-perl"

abbrev pub application_x_pilot : Str
application_x_pilot = codes "application/x-pilot"

abbrev pub application_x_rar_compressed : Str
application_x_rar_compressed = codes "application/x-rar-compressed"

abbrev pub application_x_redhat_package_manager : Str
application_x_redhat_package_manager = codes "application/x-redhat-package-manager"

abbrev pub application_x_sea : Str
application_x_sea = codes "application/x-sea"

abbrev pub application_x_shockwave_flash : Str
application_x_shockwave_flash = codes "application/x-shockwave-flash"

abbrev pub application_x_stuffit : Str
application_x_stuffit = codes "application/x-stuffit"

abbrev pub application_x_tcl : Str
application_x_tcl = codes "application/x-tcl"

abbrev pub application_x_x509_ca_cert : Str
application_x_x509_ca_cert = codes "application/x-x509-ca-cert"

abbrev pub application_x_xpinstall : Str
application_x_xpinstall = codes "application/x-xpinstall"

abbrev pub application_xhtml_xml : Str
application_xhtml_xml = codes "application/xhtml+xml"

abbrev pub application_xspf_xml : Str
application_xspf_xml = codes "application/xspf+xml"

abbrev pub application_zip : Str
application_zip = codes "application/zip"

abbrev pub application_octet_stream : Str
application_octet_stream = codes "application/octet-stream"

abbrev pub audio_midi : Str
audio_midi = codes "audio/midi"

abbrev pub audio_mpeg : Str
audio_mpeg = codes "audio/mpeg"

abbrev pub audio_ogg : Str
audio_ogg = codes "audio/ogg"

abbrev pub audio_x_m4a : Str
audio_x_m4a = codes "audio/x-m4a"

abbrev pub audio_x_realaudio : Str
audio_x_realaudio = codes "audio/x-realaudio"

abbrev pub video_3gpp : Str
video_3gpp = codes "video/3gpp"

abbrev pub video_mp2t : Str
video_mp2t = codes "video/mp2t"

abbrev pub video_mp4 : Str
video_mp4 = codes "video/mp4"

abbrev pub video_mpeg : Str
video_mpeg = codes "video/mpeg"

abbrev pub video_quicktime : Str
video_quicktime = codes "video/quicktime"

abbrev pub video_webm : Str
video_webm = codes "video/webm"

abbrev pub video_x_flv : Str
video_x_flv = codes "video/x-flv"

abbrev pub video_x_m4v : Str
video_x_m4v = codes "video/x-m4v"

abbrev pub video_x_mng : Str
video_x_mng = codes "video/x-mng"

abbrev pub video_x_ms_asf : Str
video_x_ms_asf = codes "video/x-ms-asf"

abbrev pub video_x_ms_wmv : Str
video_x_ms_wmv = codes "video/x-ms-wmv"

abbrev pub video_x_msvideo : Str
video_x_msvideo = codes "video/x-msvideo"

abbrev pub any : Str
any = codes "*"

abbrev pub any_any : Str
any_any = codes "*/*"
