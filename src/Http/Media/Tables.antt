-- ===== src/Http/Media/Tables.antt =====
-- include/xsl/net/http/proto/media-type.h: the table from file extensions to media types, and the
-- array of the common media types.
use net_cpp.Prelude.{Str, codes, List, [], ◌∷◌}
use net_cpp.Http.Media.Names.{
  application_atom_xml, application_java_archive, application_javascript, application_json,
  application_mac_binhex40, application_msword, application_octet_stream, application_pdf,
  application_postscript, application_rss_xml, application_rtf, application_vnd_apple_mpegurl,
  application_vnd_google_earth_kml_xml, application_vnd_google_earth_kmz, application_vnd_ms_excel,
  application_vnd_ms_fontobject, application_vnd_ms_powerpoint,
  application_vnd_oasis_opendocument_graphics, application_vnd_oasis_opendocument_presentation,
  application_vnd_oasis_opendocument_spreadsheet, application_vnd_oasis_opendocument_text,
  application_vnd_openxmlformats_officedocument_presentationml_presentation,
  application_vnd_openxmlformats_officedocument_spreadsheetml_sheet,
  application_vnd_openxmlformats_officedocument_wordprocessingml_document, application_vnd_wap_wmlc,
  application_wasm, application_x_7z_compressed, application_x_cocoa,
  application_x_java_archive_diff, application_x_java_jnlp_file, application_x_makeself,
  application_x_perl, application_x_pilot, application_x_rar_compressed,
  application_x_redhat_package_manager, application_x_sea, application_x_shockwave_flash,
  application_x_stuffit, application_x_tcl, application_x_x509_ca_cert, application_x_xpinstall,
  application_xhtml_xml, application_xspf_xml, application_zip, audio_midi, audio_mpeg, audio_ogg,
  audio_x_m4a, audio_x_realaudio, font_woff, font_woff2, image_avif, image_gif, image_jpeg,
  image_png, image_svg_xml, image_tiff, image_vnd_wap_wbmp, image_webp, image_x_icon, image_x_jng,
  image_x_ms_bmp, text_css, text_html, text_mathml, text_plain, text_vnd_sun_j2me_app_descriptor,
  text_vnd_wap_wml, text_x_component, text_xml, video_3gpp, video_mp2t, video_mp4, video_mpeg,
  video_quicktime, video_webm, video_x_flv, video_x_m4v, video_x_mng, video_x_ms_asf,
  video_x_ms_wmv, video_x_msvideo,
}

-- `extension_to_media_type`; a hash map is its list of entries.
abbrev pub extension_to_media_type : List (Str × Str)
extension_to_media_type =
    (codes ".html", text_html)
    ∷ (codes ".shtml", text_html)
    ∷ (codes ".htm", text_html)
    ∷ (codes ".css", text_css)
    ∷ (codes ".xml", text_xml)
    ∷ (codes ".gif", image_gif)
    ∷ (codes ".jpeg", image_jpeg)
    ∷ (codes ".jpg", image_jpeg)
    ∷ (codes ".js", application_javascript)
    ∷ (codes ".atom", application_atom_xml)
    ∷ (codes ".rss", application_rss_xml)
    ∷ (codes ".mml", text_mathml)
    ∷ (codes ".txt", text_plain)
    ∷ (codes ".jad", text_vnd_sun_j2me_app_descriptor)
    ∷ (codes ".wml", text_vnd_wap_wml)
    ∷ (codes ".htc", text_x_component)
    ∷ (codes ".avif", image_avif)
    ∷ (codes ".png", image_png)
    ∷ (codes ".svg", image_svg_xml)
    ∷ (codes ".svgz", image_svg_xml)
    ∷ (codes ".tif", image_tiff)
    ∷ (codes ".tiff", image_tiff)
    ∷ (codes ".wbmp", image_vnd_wap_wbmp)
    ∷ (codes ".webp", image_webp)
    ∷ (codes ".ico", image_x_icon)
    ∷ (codes ".jng", image_x_jng)
    ∷ (codes ".bmp", image_x_ms_bmp)
    ∷ (codes ".woff", font_woff)
    ∷ (codes ".woff2", font_woff2)
    ∷ (codes ".jar", application_java_archive)
    ∷ (codes ".war", application_java_archive)
    ∷ (codes ".ear", application_java_archive)
    ∷ (codes ".json", application_json)
    ∷ (codes ".hqx", application_mac_binhex40)
    ∷ (codes ".doc", application_msword)
    ∷ (codes ".pdf", application_pdf)
    ∷ (codes ".ps", application_postscript)
    ∷ (codes ".eps", application_postscript)
    ∷ (codes ".ai", application_postscript)
    ∷ (codes ".rtf", application_rtf)
    ∷ (codes ".m3u8", application_vnd_apple_mpegurl)
    ∷ (codes ".kml", application_vnd_google_earth_kml_xml)
    ∷ (codes ".kmz", application_vnd_google_earth_kmz)
    ∷ (codes ".xls", application_vnd_ms_excel)
    ∷ (codes ".eot", application_vnd_ms_fontobject)
    ∷ (codes ".ppt", application_vnd_ms_powerpoint)
    ∷ (codes ".odg", application_vnd_oasis_opendocument_graphics)
    ∷ (codes ".odp", application_vnd_oasis_opendocument_presentation)
    ∷ (codes ".ods", application_vnd_oasis_opendocument_spreadsheet)
    ∷ (codes ".odt", application_vnd_oasis_opendocument_text)
    ∷ (codes ".pptx", application_vnd_openxmlformats_officedocument_presentationml_presentation)
    ∷ (codes ".xlsx", application_vnd_openxmlformats_officedocument_spreadsheetml_sheet)
    ∷ (codes ".docx", application_vnd_openxmlformats_officedocument_wordprocessingml_document)
    ∷ (codes ".wmlc", application_vnd_wap_wmlc)
    ∷ (codes ".wasm", application_wasm)
    ∷ (codes ".7z", application_x_7z_compressed)
    ∷ (codes ".cco", application_x_cocoa)
    ∷ (codes ".jardiff", application_x_java_archive_diff)
    ∷ (codes ".jnlp", application_x_java_jnlp_file)
    ∷ (codes ".run", application_x_makeself)
    ∷ (codes ".pl", application_x_perl)
    ∷ (codes ".pm", application_x_perl)
    ∷ (codes ".prc", application_x_pilot)
    ∷ (codes ".pdb", application_x_pilot)
    ∷ (codes ".rar", application_x_rar_compressed)
    ∷ (codes ".rpm", application_x_redhat_package_manager)
    ∷ (codes ".sea", application_x_sea)
    ∷ (codes ".swf", application_x_shockwave_flash)
    ∷ (codes ".sit", application_x_stuffit)
    ∷ (codes ".tcl", application_x_tcl)
    ∷ (codes ".tk", application_x_tcl)
    ∷ (codes ".der", application_x_x509_ca_cert)
    ∷ (codes ".pem", application_x_x509_ca_cert)
    ∷ (codes ".crt", application_x_x509_ca_cert)
    ∷ (codes ".xpi", application_x_xpinstall)
    ∷ (codes ".xhtml", application_xhtml_xml)
    ∷ (codes ".xspf", application_xspf_xml)
    ∷ (codes ".zip", application_zip)
    ∷ (codes ".bin", application_octet_stream)
    ∷ (codes ".exe", application_octet_stream)
    ∷ (codes ".dll", application_octet_stream)
    ∷ (codes ".deb", application_octet_stream)
    ∷ (codes ".dmg", application_octet_stream)
    ∷ (codes ".iso", application_octet_stream)
    ∷ (codes ".img", application_octet_stream)
    ∷ (codes ".msi", application_octet_stream)
    ∷ (codes ".msp", application_octet_stream)
    ∷ (codes ".msm", application_octet_stream)
    ∷ (codes ".mid", audio_midi)
    ∷ (codes ".midi", audio_midi)
    ∷ (codes ".kar", audio_midi)
    ∷ (codes ".mp3", audio_mpeg)
    ∷ (codes ".ogg", audio_ogg)
    ∷ (codes ".m4a", audio_x_m4a)
    ∷ (codes ".ra", audio_x_realaudio)
    ∷ (codes ".3gpp", video_3gpp)
    ∷ (codes ".3gp", video_3gpp)
    ∷ (codes ".ts", video_mp2t)
    ∷ (codes ".mp4", video_mp4)
    ∷ (codes ".mpeg", video_mpeg)
    ∷ (codes ".mpg", video_mpeg)
    ∷ (codes ".mov", video_quicktime)
    ∷ (codes ".webm", video_webm)
    ∷ (codes ".flv", video_x_flv)
    ∷ (codes ".m4v", video_x_m4v)
    ∷ (codes ".mng", video_x_mng)
    ∷ (codes ".asx", video_x_ms_asf)
    ∷ (codes ".asf", video_x_ms_asf)
    ∷ (codes ".wmv", video_x_ms_wmv)
    ∷ (codes ".avi", video_x_msvideo)
    ∷ []

-- `COMMON_MEDIA_TYPES`
abbrev pub common_media_types : List Str
common_media_types =
    codes "text/html"
    ∷ codes "text/css"
    ∷ codes "text/xml"
    ∷ codes "image/gif"
    ∷ codes "image/jpeg"
    ∷ codes "application/javascript"
    ∷ codes "application/atom+xml"
    ∷ codes "application/rss+xml"
    ∷ codes "text/mathml"
    ∷ codes "text/plain"
    ∷ codes "text/vnd.sun.j2me.app-descriptor"
    ∷ codes "text/vnd.wap.wml"
    ∷ codes "text/x-component"
    ∷ codes "image/avif"
    ∷ codes "image/png"
    ∷ codes "image/svg+xml"
    ∷ codes "image/tiff"
    ∷ codes "image/vnd.wap.wbmp"
    ∷ codes "image/webp"
    ∷ codes "image/x-icon"
    ∷ codes "image/x-jng"
    ∷ codes "image/x-ms-bmp"
    ∷ codes "font/woff"
    ∷ codes "font/woff2"
    ∷ codes "application/java-archive"
    ∷ codes "application/json"
    ∷ codes "application/mac-binhex40"
    ∷ codes "application/msword"
    ∷ codes "application/pdf"
    ∷ codes "application/postscript"
    ∷ codes "application/rtf"
    ∷ codes "application/vnd.apple.mpegurl"
    ∷ codes "application/vnd.google-earth.kml+xml"
    ∷ codes "application/vnd.google-earth.kmz"
    ∷ codes "application/vnd.ms-excel"
    ∷ codes "application/vnd.ms-fontobject"
    ∷ codes "application/vnd.ms-powerpoint"
    ∷ codes "application/vnd.oasis.opendocument.graphics"
    ∷ codes "application/vnd.oasis.opendocument.presentation"
    ∷ codes "application/vnd.oasis.opendocument.spreadsheet"
    ∷ codes "application/vnd.oasis.opendocument.text"
    ∷ codes "application/vnd.openxmlformats-officedocument.presentationml.presentation"
    ∷ codes "application/vnd.openxmlformats-officedocument.spreadsheetml.sheet"
    ∷ codes "application/vnd.openxmlformats-officedocument.wordprocessingml.document"
    ∷ codes "application/vnd.wap.wmlc"
    ∷ codes "application/wasm"
    ∷ codes "application/x-7z-compressed"
    ∷ codes "application/x-cocoa"
    ∷ codes "application/x-java-archive-diff"
    ∷ codes "application/x-java-jnlp-file"
    ∷ codes "application/x-makeself"
    ∷ codes "application/x-perl"
    ∷ codes "application/x-pilot"
    ∷ codes "application/x-rar-compressed"
    ∷ codes "application/x-redhat-package-manager"
    ∷ codes "application/x-sea"
    ∷ codes "application/x-shockwave-flash"
    ∷ codes "application/x-stuffit"
    ∷ codes "application/x-tcl"
    ∷ codes "application/x-x509-ca-cert"
    ∷ codes "application/x-xpinstall"
    ∷ codes "application/xhtml+xml"
    ∷ codes "application/xspf+xml"
    ∷ codes "application/zip"
    ∷ codes "application/octet-stream"
    ∷ codes "audio/midi"
    ∷ codes "audio/mpeg"
    ∷ codes "audio/ogg"
    ∷ codes "audio/x-m4a"
    ∷ codes "audio/x-realaudio"
    ∷ codes "video/3gpp"
    ∷ codes "video/mp2t"
    ∷ codes "video/mp4"
    ∷ codes "video/mpeg"
    ∷ codes "video/quicktime"
    ∷ codes "video/webm"
    ∷ codes "video/x-flv"
    ∷ codes "video/x-m4v"
    ∷ codes "video/x-mng"
    ∷ codes "video/x-ms-asf"
    ∷ codes "video/x-ms-wmv"
    ∷ codes "video/x-msvideo"
    ∷ []
